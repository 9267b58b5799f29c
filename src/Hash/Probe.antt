-- ===== src/Hash/Probe.antt =====
-- Linear probing in util/hashmap.c: where the loop over the entries stops, and that it does.
use Prim.Native.Nat.{digits, min, bit_and-bitwise}
use native.Mathlib.Nat.{mod-lt, mod-eq_of_lt, mod-add-mod, add-mod-mod, add-mod_right}
use fql.Prelude.{
  ℕ, zero, suc, ◌+◌, ◌-◌, ◌/◌, ◌%◌, ◌<◌, ◌≤◌, Bool, true, false, Option, none, some, List, [], ◌∷◌,
  ◌≡◌, refl, ◌∙◌, sym, ap, ◌≢◌, inl, inr, length, get_or, set, replicate, arith, Bool-cases,
  Option-cases, dec_lt,
}
use fql.Hash.{probe, home}

digits-min-le : (n a b : ℕ) → digits (λ b. zero) min n a b ≤ b
digits-min-le zero a b = omega arith
digits-min-le (suc n) zero b = omega arith
digits-min-le (suc n) (suc a) b = omega (arith, digits-min-le n (suc a / 2) (b / 2))

-- A hash masked by the limit less one is an index.
pub home-lt : (limit hash : ℕ) → 0 < limit → home limit hash < limit
home-lt limit hash h =
    omega (arith, bit_and-bitwise hash (limit - 1), digits-min-le hash hash (limit - 1))

-- The place d steps after one.
abbrev pub slot : ℕ → ℕ → ℕ → ℕ
slot n i d = (i + d) % n

slot-suc : (n i d : ℕ) → (slot n i d + 1) % n ≡ slot n i (d + 1)
slot-suc n i d = mod-add-mod (i + d) n 1 ∙ ap (λ k. k % n) (omega arith)

-- Every place is reached.
slot-onto : (n i z : ℕ) → i < n → z < n → slot n i ((z + n - i) % n) ≡ z
slot-onto n i z h k =
    add-mod-mod i (z + n - i) n ∙ ap (λ m. m % n) (omega arith) ∙ add-mod_right z n ∙ mod-eq_of_lt k

module _ {E : Type 0} where
  pub get_or-set_self :
      (es : List (Option E)) (i : ℕ) (v : Option E) → i < length es → get_or (set es i v) i none ≡ v
  get_or-set_self [] i v h = elim h [ ]
  get_or-set_self (e ∷ es) zero v h = refl
  get_or-set_self (e ∷ es) (suc i) v h = get_or-set_self es i v (omega arith)

  pub get_or-set_ne :
      (es : List (Option E)) (i j : ℕ) (v : Option E)
      → i ≢ j
      → get_or (set es i v) j none ≡ get_or es j none
  get_or-set_ne [] i j v h = refl
  get_or-set_ne (e ∷ es) zero zero v h = absurd (h refl)
  get_or-set_ne (e ∷ es) zero (suc j) v h = refl
  get_or-set_ne (e ∷ es) (suc i) zero v h = refl
  get_or-set_ne (e ∷ es) (suc i) (suc j) v h = get_or-set_ne es i j v (λ q. h (ap suc q))

  -- The entry at an index that is in use.
  abbrev pub Used : List (Option E) → ℕ → E → Type 0
  Used es i e = get_or es i none ≡ some e

  pub Used-lt : (es : List (Option E)) (i : ℕ) (e : E) → Used es i e → i < length es
  Used-lt [] i e h = cc
  Used-lt (x ∷ es) zero e h = omega arith
  Used-lt (x ∷ es) (suc i) e h = omega (arith, Used-lt es i e h)

  abbrev pub count : List (Option E) → ℕ
  count [] = 0
  count (none ∷ es) = count es
  count (some e ∷ es) = suc (count es)

  -- Where not all entries are in use, one is free.
  pub free_place :
      (es : List (Option E))
      → count es < length es
      → (z : ℕ) × (z < length es) × (get_or es z none ≡ none)
  free_place [] h = elim h [ ]
  free_place (none ∷ es) h = (zero, omega arith, refl)
  free_place (some e ∷ es) h =
      let (z, lt, free) = free_place es (omega arith) in (suc z, omega arith, free)

  pub count-set :
      (es : List (Option E)) (i : ℕ) (e : E)
      → i < length es
      → get_or es i none ≡ none
      → count (set es i (some e)) ≡ suc (count es)
  count-set [] i e h f = elim h [ ]
  count-set (none ∷ es) zero e h f = refl
  count-set (some x ∷ es) zero e h f = cc
  count-set (none ∷ es) (suc i) e h f = count-set es i e (omega arith) f
  count-set (some x ∷ es) (suc i) e h f = ap suc (count-set es i e (omega arith) f)

  pub get_or-replicate : (n i : ℕ) → get_or {A = Option E} (replicate n none) i none ≡ none
  get_or-replicate zero i = refl
  get_or-replicate (suc n) zero = refl
  get_or-replicate (suc n) (suc i) = get_or-replicate n i

  -- The place d steps from the home of a hash, all the places before it being in use.
  pub record Placed (es : List (Option E)) (h i : ℕ) : Type 0 where
    pub steps : ℕ
    pub near : steps < length es
    pub place : slot (length es) (home (length es) h) steps ≡ i
    pub before :
        (k : ℕ) → k < steps → get_or es (slot (length es) (home (length es) h) k) none ≢ none

  pub Placed-lt : (es : List (Option E)) (h i : ℕ) → Placed es h i → i < length es
  Placed-lt es h i p =
      let some_place = p.near in
      rw (← p.place) (mod-lt (home (length es) h + p.steps) (omega arith))

  -- The loop stops at an entry that is the one looked for, or at a free one.
  pub data Stop (same : E → Bool) (es : List (Option E)) (h i : ℕ) : Type 0 where
    hit : (e : E) → Used es i e → same e ≡ true → Stop same es h i
    miss :
        get_or es i none ≡ none
        → (p : Placed es h i)
        → ((k : ℕ) (e : E)
            → k < p.steps
            → Used es (slot (length es) (home (length es) h) k) e
            → same e ≡ false)
        → Stop same es h i

  Passed : (E → Bool) → List (Option E) → ℕ → ℕ → Type 0
  Passed same es h d =
      (k : ℕ)
      → k < d
      → (e : E) × Used es (slot (length es) (home (length es) h) k) e × (same e ≡ false)

  Passed-suc :
      (same : E → Bool) (es : List (Option E)) (h d : ℕ) (e : E)
      → Passed same es h d
      → Used es (slot (length es) (home (length es) h) d) e
      → same e ≡ false
      → Passed same es h (d + 1)
  unfolding Passed
  Passed-suc same es h d e passed used other k lt = elim (dec_lt k d) [
    | yes p ↦ passed k p
    | no p ↦
        let last : k ≡ d = omega arith in
        (e, ap (λ i. get_or es (slot (length es) (home (length es) h) i) none) last ∙ used, other)
  ]

  miss-Passed :
      (same : E → Bool) (es : List (Option E)) (h d : ℕ)
      → Passed same es h d
      → d < length es
      → get_or es (slot (length es) (home (length es) h) d) none ≡ none
      → Stop same es h (slot (length es) (home (length es) h) d)
  unfolding Passed
  miss-Passed same es h d passed near free =
      miss free
        (record {
          steps = d;
          near = near;
          place = refl;
          before = λ k lt e. let (x, used, other) = passed k lt in cc;
        })
        (λ k e lt used. let (x, was, other) = passed k lt in cc)

  -- Once the places up to the d-th are passed, the loop stops where a free one is not behind it.
  probe-from :
      (same : E → Bool) (es : List (Option E)) (h fuel d z : ℕ)
      → fuel + d ≡ length es
      → Passed same es h d
      → z < length es
      → get_or es (slot (length es) (home (length es) h) z) none ≡ none
      → (i : ℕ) × (probe same es fuel (slot (length es) (home (length es) h) d) ≡ some i)
        × Stop same es h i
  unfolding probe Passed
  probe-from same es h zero d z e passed lt free =
      let (x, used, other) = passed z (omega arith) in absurd (cc)
  probe-from same es h (suc fuel) d z e passed lt free =
      let i = slot (length es) (home (length es) h) d in
      elim (Option-cases (get_or es i none)) [
        | inl none_here ↦
            (i, rw none_here refl, miss-Passed same es h d passed (omega arith) none_here)
        | inr (x, used) ↦ elim (Bool-cases (same x)) [
          | inl this ↦ (i, rw (used, this) refl, hit x used this)
          | inr other ↦
              let (j, found, stop) =
                probe-from same es h fuel (d + 1) z (omega arith)
                  (Passed-suc same es h d x passed used other) lt free in
              (
                j,
                rw (used, other)
                    (ap (λ k. probe same es fuel k) (slot-suc (length es) (home (length es) h) d)
                      ∙ found),
                stop,
              )
        ]
      ]

  -- With a free entry the loop ends within as many rounds as there are entries.
  pub probe-Stop :
      (same : E → Bool) (es : List (Option E)) (h : ℕ)
      → count es < length es
      → (i : ℕ) × (probe same es (length es) (home (length es) h) ≡ some i) × Stop same es h i
  unfolding Passed
  probe-Stop same es h room =
      let n = length es in
      let (z, lt, free) = free_place es room in
      let start : slot n (home n h) 0 ≡ home n h =
        ap (λ k. k % n) (omega arith) ∙ mod-eq_of_lt (home-lt n h (omega arith)) in
      let there = slot-onto n (home n h) z (home-lt n h (omega arith)) lt in
      let (i, found, stop) =
        probe-from same es h n 0 ((z + n - home n h) % n) (omega arith)
          (λ k lt. absurd (omega arith)) (mod-lt (z + n - home n h) (omega arith))
          (ap (λ k. get_or es k none) there ∙ free) in
      (i, ap (λ k. probe same es n k) (sym start) ∙ found, stop)

pub count-replicate : (E : Type 0) (n : ℕ) → count {E = E} (replicate n none) ≡ 0
count-replicate E zero = refl
count-replicate E (suc n) = count-replicate E n
