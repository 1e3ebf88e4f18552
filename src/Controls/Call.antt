-- ===== src/Controls/Call.antt =====
-- `async_control` and `async_entity_control` as a whole: the checks, the handlers and the `finally`
-- block around the steps.
pub mod Ends
use ha_aiper_ble.Prelude.{
  ℕ, ◌+◌, String, ◌⊎◌, inl, inr, Bool, true, false, not, ◌||◌, Option, none, some, [],
  if◌then◌else◌,
}
use ha_aiper_ble.Outcome.{
  Exception, Result, ok, err, protocol, update_failed, timeout, cancelled, other,
}
use ha_aiper_ble.Value.{Value, Fields}
use ha_aiper_ble.Coordinator.State.{Config, State, seconds}
use ha_aiper_ble.Coordinator.Verified.{Python}
use ha_aiper_ble.Coordinator.Judge.{Transport, text_or}
use ha_aiper_ble.Coordinator.Manual.{schedule_post_control_poll, mark_stale}
use ha_aiper_ble.Protocol.Query.{is_control_action}
use ha_aiper_ble.Controls.{Run, Step, control_steps}

-- a validation error by its key
unfoldable pub control_refusal : String → State → Option String
unfolding is_control_action
control_refusal action s =
    if not (is_control_action action)
    then some "select_control"
    else if s.closing || s.suspended
    then some "control_closing_or_suspended"
    else if s.task_running
    then some "control_busy"
    else none

-- result["status"] and result["error_code"]
unfoldable pub control_status : Result Fields → Run → String × Option String
control_status (ok values) r =
    (if r.state_verified then "state_verified" else "acknowledged_state_unconfirmed", none)
control_status (err cancelled) r = ("interrupted", none)
control_status (err (protocol code)) r =
    (if r.motion_may_have_changed then "outcome_unknown" else "not_sent", some code)
control_status (err e) r = (
  if r.motion_may_have_changed then "outcome_unknown" else "not_sent",
  some "control_transport_error",
)

-- `result` at the end, and whether the call raises CancelledError
pub record ControlResult : Type 0 where
  pub run : Run
  pub status : String
  pub error_code : Option String
  pub interrupted : Bool

unfoldable pub is_cancelled : Result Fields → Bool
is_cancelled (err cancelled) = true
is_cancelled _ = false

module _ (set_error : Exception → State → State) where
  -- what the `finally` block does to the coordinator, at the time `now`
  unfoldable pub release_control : Config → ℕ → Run → State
  unfolding schedule_post_control_poll mark_stale
  release_control c now r =
      let s = record r.state {
        last_attempt_finished = some now;
        next_attempt = now + seconds c.interval;
        task_running = false;
      } in
      if s.suspended
      then set_error (update_failed (text_or s.error_code "None")) s
      else if r.motion_may_have_changed
      then mark_stale (
          schedule_post_control_poll now (record s {
            status = "awaiting_poll_after_control";
            error_code = if r.state_verified then none else some "control_state_unconfirmed";
          }))
      else s

  unfoldable pub end_control : Config → ℕ → Step → ControlResult × State
  unfolding control_status is_cancelled release_control
  end_control c now (outcome, r) =
      let status = control_status outcome r in
      (
        record {
          run = r;
          status = status.0;
          error_code = status.1;
          interrupted = is_cancelled outcome;
        },
        release_control c now r,
      )

  -- A call that is let through. It returns `result` if the state was verified, and raises otherwise.
  unfoldable pub run_control :
      Python → Config → Transport → ℕ → String → State → ControlResult × State
  unfolding control_steps end_control
  run_control py c execute now action s = end_control c now (
      control_steps py c execute action (record {
        state = record s { task_running = true };
        sent = [];
        reports = [];
        motion_may_have_changed = false;
        acknowledged = false;
        observed = none;
        state_verified = false;
      }))

  unfoldable pub async_control :
      Python → Config → Transport → ℕ → String → State → String ⊎ (ControlResult × State)
  unfolding control_refusal run_control
  async_control py c execute now action s = elim (control_refusal action s) [
    | some key ↦ inl key
    | none ↦ inr (run_control py c execute now action s)
  ]

  -- async_entity_control; `allowed` is whether the option that allows controls is True
  unfoldable pub async_entity_control :
      Bool → Python → Config → Transport → ℕ → String → State → String ⊎ (ControlResult × State)
  unfolding async_control
  async_entity_control allowed py c execute now action s =
      if allowed then async_control py c execute now action s else inl "vacuum_controls_disabled"
