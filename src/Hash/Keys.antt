-- ===== src/Hash/Keys.antt =====
-- The table of util/hashmap.c as a set of entries with different keys: a key that is not found where
-- the loop stops is nowhere, and both adding an entry and moving all of them to a larger table keep
-- this so.
use fql.Prelude.{
  ℕ, zero, suc, ◌<◌, Bool, true, false, Option, none, some, List, ◌∷◌, ◌≡◌, ◌∙◌, sym, ap, ◌≢◌, ◌⊎◌,
  inl, inr, ◌↔◌, length, get_or, set, arith, dec_lt, length-set, ℕ_discrete,
}
use mathlib.Core.Path.{subst}
use fql.Hash.{home}
use fql.Hash.Probe.{slot, Used, get_or-set_self, get_or-set_ne, Placed, Stop, hit, miss}

module _ {E : Type 0} where
  abbrev pub Present : List (Option E) → E → Type 0
  Present es e = (i : ℕ) × Used es i e

  -- What is in use after a write to a free place.
  pub Used-set :
      (es : List (Option E)) (i j : ℕ) (e f : E)
      → i < length es
      → Used (set es i (some e)) j f
      → ((j ≡ i) × (e ≡ f)) ⊎ ((i ≢ j) × Used es j f)
  Used-set es i j e f lt used = elim (ℕ_discrete i j) [
    | yes same ↦
        let self = get_or-set_self es i (some e) lt in
        inl (
          sym same,
          let both : some e ≡ some f =
                sym self ∙ ap (λ k. get_or (set es i (some e)) k none) same ∙ used in
              cc,
        )
    | no other ↦ inr (other, sym (get_or-set_ne es i j (some e) other) ∙ used)
  ]

  pub set-Used :
      (es : List (Option E)) (i j : ℕ) (e f : E)
      → get_or es i none ≡ none
      → Used es j f
      → Used (set es i (some e)) j f
  set-Used es i j e f free used = elim (ℕ_discrete i j) [
    | yes same ↦
        absurd (let clash : none ≡ some f = sym free ∙ ap (λ k. get_or es k none) same ∙ used in cc)
    | no other ↦ get_or-set_ne es i j (some e) other ∙ used
  ]

  Placed-set :
      (es : List (Option E)) (i : ℕ) (e : E) (h j : ℕ)
      → i < length es
      → Placed es h j
      → Placed (set es i (some e)) h j
  Placed-set es i e h j lt p = record {
    steps = p.steps;
    near = rw (length-set es i (some e)) p.near;
    place = rw (length-set es i (some e)) p.place;
    before = λ k less. rw (length-set es i (some e)) (still k less);
  }
    where
      still :
          (k : ℕ)
          → k < p.steps
          → get_or (set es i (some e)) (slot (length es) (home (length es) h) k) none ≢ none
      still k less free = elim (ℕ_discrete i (slot (length es) (home (length es) h) k)) [
        | yes same ↦
            let now : some e ≡ none =
              sym (get_or-set_self es i (some e) lt)
              ∙ ap (λ m. get_or (set es i (some e)) m none) same
              ∙ free in
            cc
        | no other ↦ p.before k less (sym (get_or-set_ne es i _ (some e) other) ∙ free)
      ]

  -- Members after a write to a free place, and members of a longer list.
  pub Present-set :
      (es : List (Option E)) (i : ℕ) (x e : E)
      → i < length es
      → get_or es i none ≡ none
      → Present (set es i (some x)) e ↔ ((x ≡ e) ⊎ Present es e)
  Present-set es i x e lt free = (
    λ (j, used). elim (Used-set es i j x e lt used) [
      | inl (at, is) ↦ inl is
      | inr (ne, was) ↦ inr (j, was)
    ],
    λ p. elim p [
      | inl is ↦ (i, get_or-set_self es i (some x) lt ∙ ap some is)
      | inr (j, was) ↦ (j, set-Used es i j x e free was)
    ],
  )

  Present-cons :
      (x e : E) (es : List (Option E)) → Present (some x ∷ es) e ↔ ((x ≡ e) ⊎ Present es e)
  Present-cons x e es =
      (split, λ p. elim p [ inl is ↦ (zero, ap some is) | inr (j, u) ↦ (suc j, u) ])
    where
      split : Present (some x ∷ es) e → (x ≡ e) ⊎ Present es e
      split (zero, u) = inl (cc)
      split (suc j, u) = inr (j, u)

  -- An entry moved from the front of the source to the destination.
  pub Present-move :
      (src dest : List (Option E)) (i : ℕ) (x e : E)
      → i < length dest
      → get_or dest i none ≡ none
      → (Present src e ⊎ Present (set dest i (some x)) e)
        ↔ (Present (some x ∷ src) e ⊎ Present dest e)
  Present-move src dest i x e lt free = (
    λ p. elim p [
      | inl q ↦ inl ((Present-cons x e src).1 (inr q))
      | inr q ↦ elim ((Present-set dest i x e lt free).0 q) [
        | inl is ↦ inl ((Present-cons x e src).1 (inl is))
        | inr r ↦ inr r
      ]
    ],
    λ p. elim p [
      | inl q ↦ elim ((Present-cons x e src).0 q) [
        | inl is ↦ inr ((Present-set dest i x e lt free).1 (inl is))
        | inr r ↦ inl r
      ]
      | inr q ↦ inr ((Present-set dest i x e lt free).1 (inr q))
    ],
  )

  pub Stop-free :
      (es : List (Option E)) (h i : ℕ)
      → Stop (λ (other : E). false) es h i
      → (get_or es i none ≡ none) × Placed es h i
  Stop-free es h i (hit e used is) = cc
  Stop-free es h i (miss free p passed) = (free, p)

module _ {E K : Type 0} (hash_of : E → ℕ) (hash_key : K → ℕ) where
  -- Each entry stands where its hash puts it, and no two have the same key.
  pub record Good (key_of : E → K) (es : List (Option E)) : Type 0 where
    pub placed : (i : ℕ) (e : E) → Used es i e → Placed es (hash_of e) i
    pub hashed : (i : ℕ) (e : E) → Used es i e → hash_of e ≡ hash_key (key_of e)
    pub once : (i j : ℕ) (e f : E) → Used es i e → Used es j f → key_of e ≡ key_of f → i ≡ j

  -- Where the loop stops at a free entry, no entry has the key.
  pub miss-absent :
      (key_of : E → K) (es : List (Option E)) (k : K) (i : ℕ) (same : E → Bool)
      → Good key_of es
      → (p : Placed es (hash_key k) i) → get_or es i none ≡ none
      → ((j : ℕ) (e : E) → Used es j e → key_of e ≡ k → hash_of e ≡ hash_key k → same e ≡ true)
      → ((m : ℕ) (e : E)
          → m < p.steps
          → Used es (slot (length es) (home (length es) (hash_key k)) m) e
          → same e ≡ false)
      → (j : ℕ) (e : E) → Used es j e
      → key_of e ≢ k
  miss-absent key_of es k i same g p free found passed j e used is_k =
      let h_eq : hash_of e ≡ hash_key k = g.hashed j e used ∙ ap hash_key is_k in
      let q : Placed es (hash_key k) j = subst (λ h. Placed es h j) h_eq (g.placed j e used) in
      let here = slot (length es) (home (length es) (hash_key k)) in
      elim (dec_lt q.steps p.steps) [
        | yes early ↦
            let now : same e ≡ true = found j e used is_k h_eq in
            let was : same e ≡ false =
              passed q.steps e early (ap (λ m. get_or es m none) q.place ∙ used) in
            cc
        | no late ↦ elim (dec_lt p.steps q.steps) [
          | yes later ↦ q.before p.steps later (ap (λ m. get_or es m none) p.place ∙ free)
          | no not_later ↦
              let equal : p.steps ≡ q.steps = omega arith in
              let there : i ≡ j = sym p.place ∙ ap here equal ∙ q.place in
              let clash : none ≡ some e = sym free ∙ ap (λ m. get_or es m none) there ∙ used in cc
        ]
      ]

  pub Good-set :
      (key_of : E → K) (es : List (Option E)) (i : ℕ) (e : E)
      → Good key_of es
      → i < length es
      → get_or es i none ≡ none
      → Placed es (hash_of e) i
      → hash_of e ≡ hash_key (key_of e)
      → ((j : ℕ) (f : E) → Used es j f → key_of f ≢ key_of e)
      → Good key_of (set es i (some e))
  Good-set key_of es i e g lt free p h_eq absent = record {
    placed = λ j f used. elim (Used-set es i j e f lt used) [
      | inl (at, is) ↦
          subst (λ m. Placed (set es i (some e)) (hash_of f) m) (sym at)
            (subst (λ x. Placed (set es i (some e)) (hash_of x) i) is
              (Placed-set es i e (hash_of e) i lt p))
      | inr (ne, was) ↦ Placed-set es i e (hash_of f) j lt (g.placed j f was)
    ];
    hashed = λ j f used. elim (Used-set es i j e f lt used) [
      | inl (at, is) ↦ subst (λ x. hash_of x ≡ hash_key (key_of x)) is h_eq
      | inr (ne, was) ↦ g.hashed j f was
    ];
    once = λ j m f x used_f used_x eq. elim (Used-set es i j e f lt used_f) [
      | inl (at, is) ↦ elim (Used-set es i m e x lt used_x) [
        | inl (at', is') ↦ at ∙ sym at'
        | inr (ne, was) ↦ absurd (absent m x was (sym eq ∙ ap key_of (sym is)))
      ]
      | inr (ne, was) ↦ elim (Used-set es i m e x lt used_x) [
        | inl (at, is) ↦ absurd (absent j f was (eq ∙ ap key_of (sym is)))
        | inr (ne', was') ↦ g.once j m f x was was' eq
      ]
    ];
  }

  -- The keys of the entries may be read from elsewhere, where they are the same.
  pub Good-rekey :
      (key_of key_of' : E → K) (es : List (Option E))
      → ((i : ℕ) (e : E) → Used es i e → key_of' e ≡ key_of e)
      → Good key_of es
      → Good key_of' es
  Good-rekey key_of key_of' es same g = record {
    placed = g.placed;
    hashed = λ i e u. g.hashed i e u ∙ ap hash_key (sym (same i e u));
    once = λ i j e f u v eq. g.once i j e f u v (sym (same i e u) ∙ eq ∙ same j f v);
  }
