-- ===== src/S1States.antt =====
-- s1_states.py, and the activity of vacuum.py that is read off the decoded state.
pub mod Laws
mod Tests
use ha_aiper_ble.Prelude.{
  ℕ, Bool, true, false, not, ◌&&◌, ◌||◌, Option, none, some, ◌++◌, leb, ◌==◌, if◌then◌else◌,
}
use ha_aiper_ble.Prelude.Int.{pos, leb_ℤ}
use ha_aiper_ble.Prelude.Text.{codes, text_eq}
use ha_aiper_ble.Value.{Value, Fields, null, bool, int, float, get}
use ha_aiper_ble.Value.Json.{decimal}

pub data InfoState : Type 0 where
  standby working charging fully_charged updating sunward unknown_code : InfoState

-- value == n, for a number n that is neither 0 nor 1
unfoldable pub equals : ℕ → Option Value → Bool
unfolding decimal
equals n (some (int (pos m))) = m == n
equals n (some (float f)) = text_eq f (decimal n ++ codes ".0")
equals n _ = false

-- the cases after `status` is known to be one of 0 to 4
unfoldable pub state_of : ℕ → Option Value → Option Value → InfoState
unfolding equals
state_of status mode battery =
    if status == 4
    then updating
    else if status == 3 || (status == 2 && equals 100 battery)
    then fully_charged
    else if status == 2
    then charging
    else if equals 9 mode
    then sunward
    else if status == 1 && not (equals 8 mode)
    then working
    else standby

-- type(status) is int and status in {0, 1, 2, 3, 4}
unfoldable pub known_state : Option Value → Option Value → Option Value → InfoState
unfolding state_of
known_state (some (int (pos n))) mode battery =
    if leb n 4 then state_of n mode battery else unknown_code
known_state _ mode battery = unknown_code

unfoldable pub info_state : Fields → InfoState
unfolding known_state
info_state values =
    known_state (get values "info_status_raw") (get values "info_mode_raw") (get values "battery")

pub data Activity : Type 0 where
  cleaning idle docked error : Activity

-- ACTIVITIES.get(state)
unfoldable pub activity_of : InfoState → Option Activity
activity_of working = some cleaning
activity_of sunward = some cleaning
activity_of standby = some idle
activity_of charging = some docked
activity_of fully_charged = some docked
activity_of updating = none
activity_of unknown_code = none

-- data.get("warning_code_raw") not in (None, 0)
unfoldable pub has_warning : Fields → Bool
has_warning values = elim (get values "warning_code_raw") [
  | none ↦ false
  | some value ↦ elim value [
    | null ↦ false
    | bool b ↦ b
    | int n ↦ not (leb_ℤ n (pos 0) && leb_ℤ (pos 0) n)
    | float f ↦ not (text_eq f (codes "0.0") || text_eq f (codes "-0.0"))
    | _ ↦ true
  ]
]

-- AiperVacuum.activity, given the observed state of a control readback that stands in, if any
unfoldable pub activity : Option InfoState → Fields → Option Activity
unfolding activity_of has_warning info_state
activity (some observed) values = activity_of observed
activity none values = if has_warning values then some error else activity_of (info_state values)
