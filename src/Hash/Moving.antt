-- ===== src/Hash/Moving.antt =====
-- `_increase_size` in util/hashmap.c: all entries of a table are moved to a larger one.
use fql.Prelude.{
  ℕ, zero, suc, ◌+◌, ◌<◌, false, Option, none, some, List, [], ◌∷◌, ◌≡◌, refl, ◌∙◌, ap, ◌≢◌, ◌⊎◌,
  inl, inr, ◌↔◌, length, set, arith, length-set,
}
use fql.Hash.{rehash}
use fql.Hash.Probe.{Used, count, count-set, Placed-lt, probe-Stop}
use fql.Hash.Keys.{Present, Used-set, Present-move, Stop-free, Good, Good-set}

module _ {E K : Type 0} (hash_of : E → ℕ) (hash_key : K → ℕ) where
  -- What `_increase_size` makes of the entries of a table whose keys are different.
  pub record Moved (key_of : E → K) (src dest out : List (Option E)) : Type 0 where
    pub good : Good hash_of hash_key key_of out
    pub width : length out ≡ length dest
    pub total : count out ≡ count src + count dest
    pub members : (e : E) → Present out e ↔ (Present src e ⊎ Present dest e)

  pub rehash-Moved :
      (key_of : E → K) (src dest : List (Option E))
      → Good hash_of hash_key key_of dest
      → count src + count dest < length dest
      → ((i : ℕ) (e : E) → Used src i e → hash_of e ≡ hash_key (key_of e))
      → ((i j : ℕ) (e f : E) → Used src i e → Used src j f → key_of e ≡ key_of f → i ≡ j)
      → ((i j : ℕ) (e f : E) → Used src i e → Used dest j f → key_of f ≢ key_of e)
      → (out : List (Option E)) × (rehash hash_of src dest ≡ some out) × Moved key_of src dest out
  unfolding rehash
  rehash-Moved key_of [] dest g room hashed once apart = (
    dest,
    refl,
    record {
      good = g;
      width = refl;
      total = omega arith;
      members = λ e. (λ p. inr p, λ p. elim p [ inl (i, used) ↦ cc | inr q ↦ q ]);
    },
  )
  rehash-Moved key_of (none ∷ src) dest g room hashed once apart =
      let (out, runs, m) =
        rehash-Moved key_of src dest g room (λ i e u. hashed (suc i) e u)
          (λ i j e f u v eq. let q = once (suc i) (suc j) e f u v eq in omega arith)
          (λ i j e f u v. apart (suc i) j e f u v) in
      (
        out,
        runs,
        record {
          good = m.good;
          width = m.width;
          total = m.total;
          members = λ e. (λ p. widen e ((m.members e).0 p), λ p. (m.members e).1 (narrow e p));
        },
      )
    where
      widen : (e : E) → Present src e ⊎ Present dest e → Present (none ∷ src) e ⊎ Present dest e
      widen e (inl (i, u)) = inl (suc i, u)
      widen e (inr p) = inr p

      narrow : (e : E) → Present (none ∷ src) e ⊎ Present dest e → Present src e ⊎ Present dest e
      narrow e (inl (zero, u)) = cc
      narrow e (inl (suc i, u)) = inl (i, u)
      narrow e (inr p) = inr p
  rehash-Moved key_of (some x ∷ src) dest g room hashed once apart =
      let h = hash_of x in
      let (i, found, stop) = probe-Stop (λ (other : E). false) dest h (omega arith) in
      let (free, p) = Stop-free dest h i stop in
      let lt = Placed-lt dest h i p in
      let next = set dest i (some x) in
      let g' =
        Good-set hash_of hash_key key_of dest i x g lt free p (hashed zero x refl)
          (λ j f used. apart zero j x f refl used) in
      let (out, runs, m) =
        rehash-Moved key_of src next g'
          (omega (arith, count-set dest i x lt free, length-set dest i (some x)))
          (λ j e u. hashed (suc j) e u)
          (λ j k e f u v eq. let q = once (suc j) (suc k) e f u v eq in omega arith)
          (λ j k e f u v. elim (Used-set dest i k x f lt v) [
            | inl (at, is) ↦ λ eq.
                let q = once zero (suc j) x e refl u (ap key_of is ∙ eq) in absurd (omega arith)
            | inr (ne, was) ↦ apart (suc j) k e f u was
          ]) in
      (
        out,
        rw found runs,
        record {
          good = m.good;
          width = m.width ∙ length-set dest i (some x);
          total = omega (arith, m.total, count-set dest i x lt free);
          members = λ e. (
            λ p. (Present-move src dest i x e lt free).0 ((m.members e).0 p),
            λ p. (m.members e).1 ((Present-move src dest i x e lt free).1 p),
          );
        },
      )
