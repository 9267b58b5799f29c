-- ===== src/Status.antt =====
-- The return codes of lib/include/fql.h and the macros of lib/misc.h and lib/fqllogic.c that test
-- them. A function that returns a value through a pointer beside FQL_GOOD, FQL_NULL or FQL_FAIL
-- returns `Got`; one that returns a truth value or FQL_FAIL returns an `Option`, `none` for FQL_FAIL.
use fql.Prelude.{Bool, false, Option, none, some, ◌≡◌, refl}

pub data Got {ℓ} (A : Type ℓ) : Type ℓ where
  good : A → Got A
  null : Got A
  fail : Got A

-- `try_`: FQL_FAIL is passed up.
infixl 5 ◌>>=◌
abbrev pub ◌>>=◌ {ℓ κ} : {A : Type ℓ} {B : Type κ} → Option A → (A → Option B) → Option B
none >>= f = none
some a >>= f = f a

-- `try_deref_`: FQL_FAIL and FQL_NULL are both passed up.
abbrev pub try_deref {ℓ κ} : {A : Type ℓ} {B : Type κ} → Got A → (A → Got B) → Got B
try_deref (good a) f = f a
try_deref null f = null
try_deref fail f = fail

-- `try_logic_deref_`: FQL_FAIL is passed up and FQL_NULL makes the test false.
abbrev pub try_logic_deref {ℓ} : {A : Type ℓ} → Got A → (A → Option Bool) → Option Bool
try_logic_deref (good a) f = f a
try_logic_deref null f = some false
try_logic_deref fail f = none

-- `if (condition) return FQL_FAIL` on a conversion that leaves FQL_GOOD otherwise.
abbrev pub got_of {ℓ} : {A : Type ℓ} → Option A → Got A
got_of none = fail
got_of (some a) = good a

-- What a chain that ends has come through.
pub bind-some :
    {A B : Type 0} (o : Option A) (f : A → Option B) (b : B)
    → (o >>= f) ≡ some b
    → (a : A) × (o ≡ some a) × (f a ≡ some b)
bind-some none f b h = cc
bind-some (some a) f b h = (a, refl, h)
