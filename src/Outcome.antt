-- ===== src/Outcome.antt =====
-- Python exceptions as values. `ProtocolError` of protocol.py carries a fixed code, and
-- `UpdateFailed` of Home Assistant's update coordinator carries a text; the other families matter
-- only by their class.
use ha_aiper_ble.Prelude.{String, ◌≡◌, refl}

pub data Exception : Type 0 where
  protocol : String → Exception
  update_failed : String → Exception
  timeout : Exception
  cancelled : Exception
  other : Exception

pub data Result {ℓ} (A : Type ℓ) : Type ℓ where
  ok : A → Result A
  err : Exception → Result A

infixl 5 ◌>>=◌
abbrev pub ◌>>=◌ {ℓ κ} : {A : Type ℓ} {B : Type κ} (m : Result A) → (A → Result B) → Result B
err raised >>= next = err raised
ok value >>= next = next value

-- What holds of both branches of an elimination, each with what it knows of the result.
pub result_elim {ℓ κ ι} :
    {A : Type ℓ} {B : Type κ} (P : B → Type ι) (m : Result A) (f : Exception → B) (g : A → B)
    → ((e : Exception) → m ≡ err e → P (f e))
    → ((a : A) → m ≡ ok a → P (g a))
    → P (elim m [ err e ↦ f e | ok a ↦ g a ])
result_elim P (err e) f g failed passed = failed e refl
result_elim P (ok a) f g failed passed = passed a refl
