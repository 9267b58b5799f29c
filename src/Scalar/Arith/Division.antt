-- ===== src/Scalar/Arith/Division.antt =====
-- `fql_op_divi_i` and `fql_op_mod_i` of lib/scalarfn.c.
use fql.Prelude.{
  suc, ◌%◌, ◌<◌, ◌==◌, if◌then◌else◌, ◌≡◌, refl, ◌≢◌, ◌↔◌, arith, Bool-cases, inl, inr, ◌⊎◌, ◌∙◌,
}
use fql.Prelude.Int.{ℤ, pos, negsuc, neg_part, sub_ℕ, ltb_ℤ, ◌+ℤ◌, ◌*ℤ◌}
use native.Mathlib.Nat.{div-add-mod, mod-lt}
use fql.Status.{Got, good}
use fql.Scalar.Arith.{
  Run, done, trap, run_args, size, quotient, remainder, divi, modi, op_divi_i, op_mod_i,
}

signed-size : (n0 : ℤ) → n0 ≡ (if ltb_ℤ n0 (pos 0) then sub_ℕ 0 (size n0) else pos (size n0))
signed-size (pos n) = ground arith
signed-size (negsuc n) = ground arith

-- The quotient and the remainder make up the dividend, and the remainder is smaller than the
-- divisor.
pub quotient-remainder :
    (n0 n1 : ℤ)
    → size n1 ≢ 0
    → (quotient n0 n1 *ℤ n1 +ℤ remainder n0 n1 ≡ n0) × (size (remainder n0 n1) < size n1)
unfolding ◌*ℤ◌ ◌+ℤ◌
quotient-remainder (pos a) (pos b) h = ground (arith, div-add-mod a b, mod-lt a {m = b})
quotient-remainder (pos a) (negsuc b) h =
    ground (arith, div-add-mod a (suc b), mod-lt a {m = suc b})
quotient-remainder (negsuc a) (pos b) h =
    ground (arith, div-add-mod (suc a) b, mod-lt (suc a) {m = b})
quotient-remainder (negsuc a) (negsuc b) h =
    ground (arith, div-add-mod (suc a) (suc b), mod-lt (suc a) {m = suc b})

run_args-good :
    {E R : Type 0} (get_int : E → R → Got ℤ) (f : ℤ → ℤ → Run ℤ) (e0 e1 : E) (rg : R) (n0 n1 : ℤ)
    → get_int e0 rg ≡ good n0
    → get_int e1 rg ≡ good n1
    → run_args get_int f e0 e1 rg ≡ f n0 n1
unfolding run_args
run_args-good get_int f e0 e1 rg n0 n1 h0 h1 = ground arith

divi-modi :
    (n0 n1 : ℤ)
    → modi n0 n1 ≢ trap
    → (divi n0 n1 ≡ done (good (quotient n0 n1)))
      × (modi n0 n1 ≡ done (good (remainder n0 n1)))
      × (size n1 ≢ 0)
unfolding divi modi
divi-modi n0 n1 h = (ground arith, ground arith, λ e. h (ground arith))

remainder_sign :
    (n0 n1 : ℤ) → (remainder n0 n1 ≡ pos 0) ⊎ ((neg_part (remainder n0 n1) ≡ 0) ↔ (neg_part n0 ≡ 0))
remainder_sign (pos a) n1 = inr (λ e. refl, λ e. ground arith)
remainder_sign (negsuc a) n1 = elim (Bool-cases (suc a % size n1 == 0)) [
  | inl e ↦ inl (ground arith)
  | inr e ↦ inr (λ h. absurd (ground arith), λ h. absurd (ground arith))
]

module _ {E R : Type 0} (get_int : E → R → Got ℤ) (e0 e1 : E) (rg : R) {n0 n1 : ℤ} where
  -- Where the machine does not trap them, division and remainder of two longs give a quotient and
  -- a remainder that make up the dividend, the remainder being smaller than the divisor
  -- and, if it is not 0, of the sign of the dividend.
  pub division_lem :
      get_int e0 rg ≡ good n0
      → get_int e1 rg ≡ good n1
      → op_mod_i get_int e0 e1 rg ≢ trap
      → (q : ℤ) × (r : ℤ) × (op_divi_i get_int e0 e1 rg ≡ done (good q))
        × (op_mod_i get_int e0 e1 rg ≡ done (good r))
        × (q *ℤ n1 +ℤ r ≡ n0)
        × (size r < size n1)
        × ((r ≡ pos 0) ⊎ ((neg_part r ≡ 0) ↔ (neg_part n0 ≡ 0)))
  unfolding op_divi_i op_mod_i
  division_lem h0 h1 ok =
      let divi_eq = run_args-good get_int divi e0 e1 rg n0 n1 h0 h1 in
      let modi_eq = run_args-good get_int modi e0 e1 rg n0 n1 h0 h1 in
      let (d, m, nonzero) = divi-modi n0 n1 (rw modi_eq at ok) in
      let (sum, small) = quotient-remainder n0 n1 nonzero in
      (quotient n0 n1, remainder n0 n1, divi_eq ∙ d, modi_eq ∙ m, sum, small, remainder_sign n0 n1)
