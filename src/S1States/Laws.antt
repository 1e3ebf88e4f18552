-- ===== src/S1States/Laws.antt =====
-- When each decoded state is reported.
use ha_aiper_ble.Prelude.{◌≡◌, ◌↔◌, false, Option, some, arith}
use ha_aiper_ble.Prelude.Int.{pos}
use ha_aiper_ble.Value.{Value, int}
use ha_aiper_ble.S1States.{working, equals, state_of, known_state}

-- The robot is said to be working exactly when its status is 1 and its mode neither 8 nor 9.
pub known_state-working :
    (status mode battery : Option Value)
    → (known_state status mode battery ≡ working)
      ↔ ((status ≡ some (int (pos 1))) × (equals 9 mode ≡ false) × (equals 8 mode ≡ false))
unfolding known_state state_of
known_state-working status mode battery = ground arith
