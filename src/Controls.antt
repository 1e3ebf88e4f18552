-- ===== src/Controls.antt =====
-- controls.py: `async_control` and `async_entity_control`. The transport and Home Assistant's
-- `async_set_update_error` (`set_error`) are parameters. A cancellation by the deadline of
-- `asyncio.timeout` stands as the TimeoutError that it becomes.
pub mod Sends
pub mod Call
mod Tests
use ha_aiper_ble.Prelude.{
  ℕ, String, Bool, true, false, not, ◌&&◌, ◌||◌, Option, none, some, List, [], ◌∷◌, ◌++◌, ltb, leb,
  ◌==◌, if◌then◌else◌, str_eq,
}
use ha_aiper_ble.Prelude.Int.{pos}
use ha_aiper_ble.Prelude.Text.{codes, text_eq}
use ha_aiper_ble.Outcome.{
  Exception, Result, ok, err, protocol, update_failed, timeout, cancelled, other,
}
use ha_aiper_ble.Value.{Value, Fields, int, bool, float, end, get}
use ha_aiper_ble.S1States.{InfoState, standby, working, info_state}
use ha_aiper_ble.Protocol.Query.{
  Query, Control, Request, query, control, make_query, make_control, query_type_of,
}
use ha_aiper_ble.Coordinator.Report.{Report, new_report, is_text, suspends}
use ha_aiper_ble.Coordinator.State.{Config, State, set_suspended, seconds}
use ha_aiper_ble.Coordinator.Verified.{Python, verified_values}
use ha_aiper_ble.Coordinator.Judge.{Exchange, Transport, leave_timeout, is_complete, text_or}
use ha_aiper_ble.Coordinator.Manual.{schedule_post_control_poll, mark_stale}

-- What the call builds up: the coordinator's state, the requests sent and their reports, and the
-- entries of `result`.
pub record Run : Type 0 where
  pub state : State
  pub sent : List Request
  pub reports : List Report
  pub motion_may_have_changed : Bool
  pub acknowledged : Bool
  pub observed : Option InfoState
  pub state_verified : Bool

abbrev pub Step : Type 0
Step = Result Fields × Run

unfoldable pub is_control : Request → Bool
is_control (control c) = true
is_control (query q) = false

-- report.get("write_attempts", 0) > 0
unfoldable pub has_written : Report → Bool
has_written r = elim r.write_attempts [ none ↦ false | some n ↦ ltb 0 n ]

-- what suspends the transport after a control's exchange
unfoldable pub needs_review : Report → Bool
needs_review r =
    is_text r.status "cleanup_requires_review"
    || suspends r.error_code
    || not (is_text r.cleanup "disconnected_confirmed" || is_text r.cleanup "not_connected")
    || (is_text r.notification_cleanup "stop_unconfirmed"
        || is_text r.notification_cleanup "ownership_uncertain")

unfoldable pub suspend_control : Bool → State → State
unfolding set_suspended
suspend_control needed s =
    if needed
    then record (set_suspended true s) {
      status = "suspended";
      error_code = some "control_cleanup_or_protocol_requires_review";
      update_interval = none;
    }
    else s

-- the inner `finally` block: the exchange is noted
unfoldable pub note_exchange : Request → Exchange → Run → Run
unfolding is_control has_written needs_review suspend_control
note_exchange request x r = record r {
  state = suspend_control (needs_review x.report) (record r.state { closing = x.closing });
  sent = r.sent ++ request ∷ [];
  reports = r.reports ++ x.report ∷ [];
  motion_may_have_changed =
      if is_control request then has_written x.report else r.motion_may_have_changed;
}

-- the checks after the inner `finally` block
unfoldable pub judge_control : Python → Request → Exchange → State → Result Fields
unfolding leave_timeout is_complete
judge_control py request x s = elim x.raised [
  | some e ↦ err e
  | none ↦
      if x.cancel_requested
      then err (leave_timeout x.deadline_expired cancelled)
      else if s.suspended || not (is_complete x.report)
      then err (protocol "control_exchange_incomplete")
      else verified_values py x.report.protocol_response request
]

-- the value is 0 or 1
unfoldable pub is_zero_or_one : Value → Bool
is_zero_or_one (int (pos n)) = leb n 1
is_zero_or_one (bool b) = true
is_zero_or_one (float f) =
    text_eq f (codes "0.0") || text_eq f (codes "-0.0") || text_eq f (codes "1.0")
is_zero_or_one _ = false

unfoldable pub is_number : ℕ → Option Value → Bool
is_number n (some (int (pos m))) = m == n
is_number n _ = false

unfoldable pub is_ready : InfoState → Bool
is_ready standby = true
is_ready working = true
is_ready _ = false

unfoldable pub is_state : Bool → InfoState → Bool
is_state true working = true
is_state false standby = true
is_state _ _ = false

-- The check of the fresh INFO reading; a missing status would be a KeyError.
unfoldable pub check_before : Fields → Result Fields
unfolding is_zero_or_one is_ready info_state
check_before before = elim (get before "info_status_raw") [
  | none ↦ err other
  | some status ↦
      if is_zero_or_one status && is_ready (info_state before)
      then ok before
      else err (protocol "start_blocked_by_operating_state")
]

-- the check of the fresh warning; its code is an int whenever WARN was verified
unfoldable pub check_warning : Fields → Result Fields
unfolding is_number
check_warning warning =
    if is_number 0 (get warning "warning_code_raw")
    then ok warning
    else err (protocol "start_blocked_by_warning")

-- The steps of the try block in order, up to the first exception.
abbrev pub then_step : Step → (Fields → Run → Step) → Step
then_step (err e, r) next = (err e, r)
then_step (ok values, r) next = next values r

abbrev pub check_step : (Fields → Result Fields) → Step → Step
check_step check (err e, r) = (err e, r)
check_step check (ok values, r) = (check values, r)

-- result["state_verified"] and the entries before it
unfoldable pub read_back : Bool → Fields → Run → Run
unfolding is_number is_state info_state
read_back starting after r = record r {
  observed = some (info_state after);
  state_verified =
      is_number (if starting then 1 else 0) (get after "info_status_raw")
      && is_state starting (info_state after);
}

module _ (py : Python) (c : Config) (execute : Transport) where
  unfoldable pub exchange : Request → Run → Step
  unfolding note_exchange judge_control
  exchange request r =
      let x = execute (new_report (query_type_of request)) request in
      let r' = note_exchange request x r in (judge_control py request x r'.state, r')

  unfoldable pub ask : String → Run → Step
  unfolding exchange
  ask name r = elim (make_query "omit_empty_crc" "request" (bool c.allow_missing) name false) [
    | err e ↦ (err e, r)
    | ok q ↦ exchange (query q) r
  ]

  unfoldable pub set_mode : String → Run → Step
  unfolding exchange
  set_mode action r =
      elim (make_control action (bool c.allow_missing) "nonempty_crc" "request" "MODE") [
        | err e ↦ (err e, r)
        | ok k ↦ exchange (control k) r
      ]

  -- the setter and one readback
  unfoldable pub apply : Bool → String → Run → Step
  unfolding ask set_mode read_back
  apply starting action r = then_step (set_mode action r) λ reply r1.
      then_step (ask "INFO" (record r1 { acknowledged = true }))
        λ after r2. (ok after, read_back starting after r2)

  unfoldable pub preflight : Run → Step
  unfolding ask check_before check_warning
  preflight r =
      then_step (check_step check_before (ask "INFO" r))
        λ before r1. check_step check_warning (ask "WARN" r1)

  -- the try block
  unfoldable pub control_steps : String → Run → Step
  unfolding apply preflight
  control_steps action r =
      let starting = str_eq action "start_cleaning" in
      if starting
      then then_step (preflight r) (λ warning r1. apply true action r1)
      else apply false action r
