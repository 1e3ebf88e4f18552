-- ===== src/S1States/Tests.antt =====
-- The theorem on the decoded state at concrete inputs, and each state once.
use ha_aiper_ble.Prelude.{ℕ, ◌≡◌, refl, ◌↔◌, false, Option, none, some}
use ha_aiper_ble.Prelude.Int.{pos}
use ha_aiper_ble.Value.{Value, int}
use ha_aiper_ble.S1States.{
  standby, working, charging, fully_charged, updating, sunward, unknown_code, equals, known_state,
}
use ha_aiper_ble.S1States.Laws.{known_state-working}

abbrev code : ℕ → Option Value
code n = some (int (pos n))

states :
    (known_state (code 0) (code 2) none ≡ standby)
    × (known_state (code 2) (code 2) (code 80) ≡ charging)
    × (known_state (code 2) (code 2) (code 100) ≡ fully_charged)
    × (known_state (code 4) (code 9) none ≡ updating)
    × (known_state (code 1) (code 9) none ≡ sunward)
    × (known_state (code 1) (code 8) none ≡ standby)
    × (known_state (code 5) none none ≡ unknown_code)
unfolding known_state
states = (refl, refl, refl, refl, refl, refl, refl)

known_state-working_example :
    (known_state (code 1) (code 2) none ≡ working)
    ↔ ((code 1 ≡ code 1) × (equals 9 (code 2) ≡ false) × (equals 8 (code 2) ≡ false))
known_state-working_example = known_state-working (code 1) (code 2) none
