-- ===== src/Hash/Digest.antt =====
-- The hash functions of util/hashmap.c: the hash of a key depends on the bytes that are kept of it, and
-- on no others.
use fql.Prelude.{
  ℕ, zero, suc, ◌+◌, ◌*◌, ◌^◌, ◌<◌, ◌≤◌, false, not, ◌&&◌, some, [], ◌∷◌, ◌≡◌, refl, sym, ap, ◌⊎◌,
  inl, inr, map, ltb, ◌==◌, if◌then◌else◌, length, take, arith, Bool-cases, length-map,
}
use native.Mathlib.Nat.{pow-suc, mul_comm, mul_assoc}
use fql.Text.{Text}
use fql.Hash.{
  Props, next_power_loop, next_power_of_2, hash_byte, fnv1_init, fold_case, hash_all, hash_trim,
  get_hash,
}

next_power_loop-bounds :
    (fuel value n : ℕ)
    → n ≤ value * 2 ^ fuel
    → (p : ℕ) × (next_power_loop (suc fuel) value n ≡ some p)
      × (n ≤ p)
      × ((p ≡ value) ⊎ (p < 2 * n))
unfolding next_power_loop
next_power_loop-bounds zero value n h =
    let enough : n ≤ value = omega (arith, h) in
    let stop : ltb value n ≡ false = ground arith in (value, rw stop refl, enough, inl refl)
next_power_loop-bounds (suc fuel) value n h = elim (Bool-cases (ltb value n)) [
  | inl more ↦
      let room : n ≤ value * 2 * 2 ^ fuel =
        rw (mul_assoc value 2 (2 ^ fuel), mul_comm 2 (2 ^ fuel), ← pow-suc 2 fuel) h in
      let (p, runs, le, small) = next_power_loop-bounds fuel (value * 2) n room in
      (p, rw more runs, le, elim small [ inl is ↦ inr (ground arith) | inr lt ↦ inr lt ])
  | inr stop ↦ (value, rw stop refl, ground arith, inl refl)
]

-- `_next_power_of_2` ends for up to 2 ^ 63, with a number that is large enough and less than twice as
-- large as need be.
pub next_power_of_2-bounds :
    (n : ℕ)
    → n ≤ 2 ^ 63
    → (p : ℕ) × (next_power_of_2 n ≡ some p) × (n ≤ p) × ((p ≡ 1) ⊎ (p < 2 * n))
unfolding next_power_of_2
next_power_of_2-bounds n h = next_power_loop-bounds 63 1 n (omega arith)

-- The length without the blanks at the end.
abbrev pub trimmed : Text → ℕ
trimmed [] = 0
trimmed (c ∷ cs) =
    let rest = trimmed cs in if rest == 0 then (if c == b' ' then 0 else 1) else suc rest

hash_trim-trimmed :
    (hash i n h : ℕ) (cs : Text)
    → hash_trim hash i n h cs
      ≡ (if trimmed cs == 0 then (n, h) else (i + trimmed cs, hash_all hash (take (trimmed cs) cs)))
unfolding hash_trim hash_all
hash_trim-trimmed hash i n h [] = refl
hash_trim-trimmed hash i n h (c ∷ cs) =
    let rest =
      hash_trim-trimmed (hash_byte hash c) (i + 1) (if c == b' ' then n else i + 1)
        (if c == b' ' then h else hash_byte hash c) cs in
    elim (Bool-cases (trimmed cs == 0)) [
      | inl none_left ↦ elim (Bool-cases (c == b' ')) [
        | inl blank ↦ rw (rest, none_left, blank) refl
        | inr other ↦ rw (rest, none_left, other) refl
      ]
      | inr some_left ↦
          let here : suc (trimmed cs) == 0 ≡ false = ground arith in
          rw (rest, some_left, here)
            (ap (λ m. (m, hash_all (hash_byte hash c) (take (trimmed cs) cs))) (omega arith))
    ]

-- What is hashed of a key, once the bytes that are kept of it are known.
abbrev pub hash_key : Props → Text → ℕ
unfolding hash_all
hash_key props key = if props.rtrim && trimmed key == 0 then fnv1_init else hash_all fnv1_init key

trimmed-take : (cs : Text) → trimmed (take (trimmed cs) cs) ≡ trimmed cs
trimmed-take [] = refl
trimmed-take (c ∷ cs) = elim (Bool-cases (trimmed cs == 0)) [
  | inl none_left ↦ elim (Bool-cases (c == b' ')) [
    | inl blank ↦ rw (none_left, blank) refl
    | inr other ↦ rw (none_left, other) (rw (other) refl)
  ]
  | inr some_left ↦ rw (some_left, trimmed-take cs, some_left) refl
]

take-length : (cs : Text) (n : ℕ) → n ≡ length cs → take n cs ≡ cs
take-length [] zero h = refl
take-length [] (suc n) h = refl
take-length (c ∷ cs) zero h = absurd (omega arith)
take-length (c ∷ cs) (suc n) h = ap (λ l. c ∷ l) (take-length cs n (omega arith))

-- The bytes of a key that are kept.
abbrev pub kept : Props → Text → Text
kept props key =
    let written = map (fold_case props) key in
    if props.rtrim && not (trimmed written == 0) then take (trimmed written) written else written

-- The bytes that are kept of a key are those of the folded key without the blanks at its end, all of
-- them where there is nothing else; and the hash that is taken is a function of the bytes kept.
pub get_hash-kept :
    (props : Props) (key : Text)
    → get_hash props key ≡ (kept props key, hash_key props (kept props key))
unfolding get_hash hash_all hash_trim
get_hash-kept props key = elim (Bool-cases props.rtrim) [
  | inl rtrim ↦
      let w = map (fold_case props) key in
      let all : take (length key) w ≡ w =
        take-length w (length key) (sym (length-map key (fold_case props))) in
      elim (Bool-cases (trimmed w == 0)) [
        | inl blank ↦
            rw (rtrim, hash_trim-trimmed fnv1_init 0 (length key) fnv1_init w, blank, all, blank)
              refl
        | inr some_left ↦
            rw
              (
                rtrim,
                hash_trim-trimmed fnv1_init 0 (length key) fnv1_init w,
                some_left,
                trimmed-take w,
                some_left,
              )
              (ap (λ n. (take n w, hash_all fnv1_init (take (trimmed w) w))) (omega arith))
      ]
  | inr all ↦ rw (all) refl
]
