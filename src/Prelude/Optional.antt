-- ===== src/Prelude/Optional.antt =====
-- `do` blocks over optional values.
use ha_aiper_ble.Prelude.{◌≡◌, refl, Option, none, some}

infixl 5 ◌>>=◌
abbrev pub ◌>>=◌ {ℓ κ} : {A : Type ℓ} {B : Type κ} → Option A → (A → Option B) → Option B
none >>= f = none
some a >>= f = f a

-- Inversion of a bind that has a value.
pub >>=-eq-some {ℓ κ} :
    {A : Type ℓ} {B : Type κ} (m : Option A) (f : A → Option B) {b : B}
    → (m >>= f) ≡ some b
    → (a : A) × (m ≡ some a) × (f a ≡ some b)
>>=-eq-some none f h = cc
>>=-eq-some (some a) f h = (a, refl, h)

-- What holds of both branches of an elimination, each with what it knows of the value.
pub option_elim {ℓ κ ι} :
    {A : Type ℓ} {B : Type κ} (P : B → Type ι) (o : Option A) (f : A → B) (x : B)
    → ((a : A) → o ≡ some a → P (f a))
    → (o ≡ none → P x)
    → P (elim o [ some a ↦ f a | none ↦ x ])
option_elim P none f x has lacks = lacks refl
option_elim P (some a) f x has lacks = has a refl
