-- ===== src/Prelude/Tabulate.antt =====
-- Lists given by their elements at each index, and segments written into a list.
use fql.Prelude.Lists.{length, get_or, take, drop, set}
use Prim.Native.Nat.{ℕ, zero, suc, ◌+◌, ◌<◌, ◌≤◌}
use mathlib.Core.Path.{◌≡◌, refl, ap, ap₂}
use mathlib.Core.Logic.{◌≢◌}
use mathlib.Core.List.{List, [], ◌∷◌, ◌++◌}
use native.Mathlib.Omega.{arith}

module _ {ℓ} {A : Type ℓ} where
  -- f 0, f 1, … f (n - 1)
  abbrev pub tabulate : ℕ → (ℕ → A) → List A
  tabulate zero f = []
  tabulate (suc n) f = f 0 ∷ tabulate n (λ i. f (suc i))

  -- Elements written one after another from the front; what has no room is dropped.
  abbrev pub overlay : List A → List A → List A
  overlay [] xs = []
  overlay (b ∷ bs) [] = b ∷ bs
  overlay (b ∷ bs) (x ∷ xs) = x ∷ overlay bs xs

  -- The same from an index on.
  abbrev pub write_at : List A → ℕ → List A → List A
  write_at bs zero xs = overlay bs xs
  write_at [] (suc i) xs = []
  write_at (b ∷ bs) (suc i) xs = b ∷ write_at bs i xs

  -- The n elements from an index on.
  abbrev pub read_at : List A → ℕ → ℕ → List A
  read_at bs i n = take n (drop i bs)

  pub length-tabulate : (n : ℕ) (f : ℕ → A) → length (tabulate n f) ≡ n
  length-tabulate zero f = refl
  length-tabulate (suc n) f = ap suc (length-tabulate n (λ i. f (suc i)))

  pub tabulate-ext :
      (n : ℕ) (f g : ℕ → A) → ((i : ℕ) → i < n → f i ≡ g i) → tabulate n f ≡ tabulate n g
  tabulate-ext zero f g h = refl
  tabulate-ext (suc n) f g h =
      ap₂ ◌∷◌ (h 0 (omega arith)) (tabulate-ext n _ _ (λ i p. h (suc i) (omega arith)))

  pub tabulate-append :
      (n m t : ℕ) (f g : ℕ → A)
      → n + m ≡ t
      → ((i j : ℕ) → n + i ≡ j → i < m → f j ≡ g i)
      → tabulate t f ≡ tabulate n f ++ tabulate m g
  tabulate-append zero m t f g e h =
      let same : m ≡ t = omega arith in
      rw (← same) (tabulate-ext m f g (λ i p. h i i (omega arith) p))
  tabulate-append (suc n) m zero f g e h = absurd (omega arith)
  tabulate-append (suc n) m (suc t) f g e h =
      ap (λ l. f 0 ∷ l)
        (tabulate-append n m t (λ i. f (suc i)) g (omega arith)
          (λ i j q p. h i (suc j) (omega arith) p))

  pub take-tabulate : (k n : ℕ) (f : ℕ → A) → k ≤ n → take k (tabulate n f) ≡ tabulate k f
  take-tabulate zero n f h = refl
  take-tabulate (suc k) zero f h = absurd (omega arith)
  take-tabulate (suc k) (suc n) f h =
      ap (λ l. f 0 ∷ l) (take-tabulate k n (λ i. f (suc i)) (omega arith))

  pub drop-tabulate :
      (k m n : ℕ) (f g : ℕ → A)
      → k + m ≡ n
      → ((i j : ℕ) → k + i ≡ j → i < m → f j ≡ g i)
      → drop k (tabulate n f) ≡ tabulate m g
  drop-tabulate zero m n f g e h =
      let same : n ≡ m = omega arith in rw same (tabulate-ext m f g (λ i p. h i i (omega arith) p))
  drop-tabulate (suc k) m zero f g e h = absurd (omega arith)
  drop-tabulate (suc k) m (suc n) f g e h =
      drop-tabulate k m n (λ i. f (suc i)) g (omega arith) (λ i j q p. h i (suc j) (omega arith) p)

  pub tabulate-cons : (n : ℕ) (f : ℕ → A) → n ≢ 0 → tabulate n f ≡ f 0 ∷ drop 1 (tabulate n f)
  tabulate-cons zero f h = absurd (h refl)
  tabulate-cons (suc n) f h = refl

  pub tabulate-get_or : (xs : List A) (d : A) → tabulate (length xs) (λ i. get_or xs i d) ≡ xs
  tabulate-get_or [] d = refl
  tabulate-get_or (x ∷ xs) d = ap (λ l. x ∷ l) (tabulate-get_or xs d)

  pub length-overlay : (bs xs : List A) → length (overlay bs xs) ≡ length bs
  length-overlay [] xs = refl
  length-overlay (b ∷ bs) [] = refl
  length-overlay (b ∷ bs) (x ∷ xs) = ap suc (length-overlay bs xs)

  pub length-write_at : (bs : List A) (i : ℕ) (xs : List A) → length (write_at bs i xs) ≡ length bs
  length-write_at bs zero xs = length-overlay bs xs
  length-write_at [] (suc i) xs = refl
  length-write_at (b ∷ bs) (suc i) xs = ap suc (length-write_at bs i xs)

  get_or-overlay_in :
      (bs xs : List A) (k : ℕ) (d : A)
      → k < length xs
      → k < length bs
      → get_or (overlay bs xs) k d ≡ get_or xs k d
  get_or-overlay_in [] xs k d h lt = elim lt [ ]
  get_or-overlay_in (b ∷ bs) [] k d h lt = elim h [ ]
  get_or-overlay_in (b ∷ bs) (x ∷ xs) zero d h lt = refl
  get_or-overlay_in (b ∷ bs) (x ∷ xs) (suc k) d h lt =
      get_or-overlay_in bs xs k d (omega arith) (omega arith)

  get_or-overlay_after :
      (bs xs : List A) (j : ℕ) (d : A) → length xs ≤ j → get_or (overlay bs xs) j d ≡ get_or bs j d
  get_or-overlay_after [] xs j d h = refl
  get_or-overlay_after (b ∷ bs) [] j d h = refl
  get_or-overlay_after (b ∷ bs) (x ∷ xs) zero d h = absurd (omega arith)
  get_or-overlay_after (b ∷ bs) (x ∷ xs) (suc j) d h = get_or-overlay_after bs xs j d (omega arith)

  -- Inside the segment a write is read back, and outside nothing changes.
  pub get_or-write_at_in :
      (bs : List A) (i : ℕ) (xs : List A) (k j : ℕ) (d : A)
      → i + k ≡ j
      → k < length xs
      → j < length bs
      → get_or (write_at bs i xs) j d ≡ get_or xs k d
  get_or-write_at_in bs zero xs k j d e h lt =
      let same : j ≡ k = omega arith in rw same (get_or-overlay_in bs xs k d h (omega arith))
  get_or-write_at_in [] (suc i) xs k j d e h lt = elim lt [ ]
  get_or-write_at_in (b ∷ bs) (suc i) xs k zero d e h lt = absurd (omega arith)
  get_or-write_at_in (b ∷ bs) (suc i) xs k (suc j) d e h lt =
      get_or-write_at_in bs i xs k j d (omega arith) h (omega arith)

  pub get_or-write_at_before :
      (bs : List A) (i : ℕ) (xs : List A) (j : ℕ) (d : A)
      → j < i
      → get_or (write_at bs i xs) j d ≡ get_or bs j d
  get_or-write_at_before bs zero xs j d h = elim h [ ]
  get_or-write_at_before [] (suc i) xs j d h = refl
  get_or-write_at_before (b ∷ bs) (suc i) xs zero d h = refl
  get_or-write_at_before (b ∷ bs) (suc i) xs (suc j) d h =
      get_or-write_at_before bs i xs j d (omega arith)

  pub get_or-write_at_after :
      (bs : List A) (i : ℕ) (xs : List A) (j : ℕ) (d : A)
      → i + length xs ≤ j
      → get_or (write_at bs i xs) j d ≡ get_or bs j d
  get_or-write_at_after bs zero xs j d h = get_or-overlay_after bs xs j d (omega arith)
  get_or-write_at_after [] (suc i) xs j d h = refl
  get_or-write_at_after (b ∷ bs) (suc i) xs zero d h = absurd (omega arith)
  get_or-write_at_after (b ∷ bs) (suc i) xs (suc j) d h =
      get_or-write_at_after bs i xs j d (omega arith)

  pub get_or-take :
      (n : ℕ) (xs : List A) (i : ℕ) (d : A) → i < n → get_or (take n xs) i d ≡ get_or xs i d
  get_or-take zero xs i d h = elim h [ ]
  get_or-take (suc n) [] i d h = refl
  get_or-take (suc n) (x ∷ xs) zero d h = refl
  get_or-take (suc n) (x ∷ xs) (suc i) d h = get_or-take n xs i d (omega arith)

  pub get_or-drop :
      (k : ℕ) (xs : List A) (i j : ℕ) (d : A) → k + i ≡ j → get_or (drop k xs) i d ≡ get_or xs j d
  get_or-drop zero xs i j d e = let same : i ≡ j = omega arith in rw same refl
  get_or-drop (suc k) [] i j d e = refl
  get_or-drop (suc k) (x ∷ xs) i zero d e = absurd (omega arith)
  get_or-drop (suc k) (x ∷ xs) i (suc j) d e = get_or-drop k xs i j d (omega arith)

  -- A list given in two parts.
  pub tabulate-split :
      (n m t : ℕ) (f g h : ℕ → A)
      → n + m ≡ t
      → ((i : ℕ) → i < n → f i ≡ g i)
      → ((i j : ℕ) → n + i ≡ j → i < m → f j ≡ h i)
      → tabulate t f ≡ tabulate n g ++ tabulate m h
  tabulate-split n m t f g h e left right =
      rw (tabulate-append n m t f h e right) (ap (λ l. l ++ tabulate m h) (tabulate-ext n f g left))

  pub set-write_at : (bs : List A) (i : ℕ) (x : A) → set bs i x ≡ write_at bs i (x ∷ [])
  set-write_at [] zero x = refl
  set-write_at [] (suc i) x = refl
  set-write_at (b ∷ []) zero x = refl
  set-write_at (b ∷ c ∷ bs) zero x = refl
  set-write_at (b ∷ bs) (suc i) x = ap (λ l. b ∷ l) (set-write_at bs i x)

  pub get_or-append_left :
      (ys zs : List A) (k : ℕ) (d : A) → k < length ys → get_or (ys ++ zs) k d ≡ get_or ys k d
  get_or-append_left [] zs k d h = elim h [ ]
  get_or-append_left (y ∷ ys) zs zero d h = refl
  get_or-append_left (y ∷ ys) zs (suc k) d h = get_or-append_left ys zs k d (omega arith)

  pub get_or-append_right :
      (ys zs : List A) (m k : ℕ) (d : A) → length ys + m ≡ k → get_or (ys ++ zs) k d ≡ get_or zs m d
  get_or-append_right [] zs m k d e = let same : k ≡ m = omega arith in rw same refl
  get_or-append_right (y ∷ ys) zs m zero d e = absurd (omega arith)
  get_or-append_right (y ∷ ys) zs m (suc k) d e = get_or-append_right ys zs m k d (omega arith)

  pub take-split :
      (a b k : ℕ) (xs : List A) → a + b ≡ k → take a xs ++ take b (drop a xs) ≡ take k xs
  take-split zero b k xs e = let same : b ≡ k = omega arith in rw same refl
  take-split (suc a) b zero xs e = absurd (omega arith)
  take-split (suc a) zero (suc k) [] e = refl
  take-split (suc a) (suc b) (suc k) [] e = refl
  take-split (suc a) b (suc k) (x ∷ xs) e = ap (λ l. x ∷ l) (take-split a b k xs (omega arith))

  pub drop-length : (xs : List A) (n : ℕ) → length xs ≤ n → drop n xs ≡ []
  drop-length [] zero h = refl
  drop-length [] (suc n) h = refl
  drop-length (x ∷ xs) zero h = absurd (omega arith)
  drop-length (x ∷ xs) (suc n) h = drop-length xs n (omega arith)

  pub read_at-tabulate :
      (bs : List A) (i n : ℕ) (f : ℕ → A) (d : A)
      → i + n ≤ length bs
      → ((j k : ℕ) → i + j ≡ k → j < n → get_or bs k d ≡ f j)
      → read_at bs i n ≡ tabulate n f
  read_at-tabulate bs zero zero f d h e = refl
  read_at-tabulate [] zero (suc n) f d h e = absurd (omega arith)
  read_at-tabulate (b ∷ bs) zero (suc n) f d h e = ap₂ ◌∷◌ (e 0 0 (omega arith) (omega arith)) (
      read_at-tabulate bs zero n (λ i. f (suc i)) d (omega arith)
        (λ j k q p. e (suc j) (suc k) (omega arith) (omega arith)))
  read_at-tabulate [] (suc i) zero f d h e = refl
  read_at-tabulate [] (suc i) (suc n) f d h e = absurd (omega arith)
  read_at-tabulate (b ∷ bs) (suc i) n f d h e =
      read_at-tabulate bs i n f d (omega arith) (λ j k q p. e j (suc k) (omega arith) p)
