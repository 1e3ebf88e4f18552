-- ===== src/Coordinator/Manual.antt =====
-- `async_poll_now`, the poll after a control, and `mark_stale` of coordinator.py. What Home Assistant's
-- `async_set_update_error` and `async_set_updated_data` do to the state are the parameters `set_error`
-- and `set_data`.
pub mod Polls
use ha_aiper_ble.Prelude.{
  ℕ, ◌+◌, String, Bool, true, false, not, ◌||◌, Option, none, some, List, [], if◌then◌else◌,
}
use ha_aiper_ble.Outcome.{Exception, Result, ok, err, update_failed, cancelled}
use ha_aiper_ble.Value.{Value, Fields, get}
use ha_aiper_ble.Coordinator.Report.{Report}
use ha_aiper_ble.Coordinator.State.{Config, State, seconds, post_control_seconds}
use ha_aiper_ble.Coordinator.Verified.{Python}
use ha_aiper_ble.Coordinator.Settle.{Meeting, CallEnd}
use ha_aiper_ble.Coordinator.Update.{update_data}

-- the timer's unsubscribe function is called and forgotten
unfoldable pub cancel_post_control_poll : State → State
cancel_post_control_poll s = record s { post_control_timer = none }

-- at the time `now`
unfoldable pub schedule_post_control_poll : ℕ → State → State
unfolding cancel_post_control_poll
schedule_post_control_poll now s = record (cancel_post_control_poll s) {
  next_attempt = now + seconds post_control_seconds;
  post_control_timer = some (now + seconds post_control_seconds);
}

-- What the timer calls, and whether it requests a refresh.
unfoldable pub post_control_poll : Config → State → State × Bool
post_control_poll c s =
    if not c.enabled || s.closing || s.suspended
    then (record s { post_control_timer = none }, false)
    else if s.task_running
    then (record s { post_control_timer = none }, false)
    else (record s { post_control_timer = none; next_attempt = 0 }, true)

-- The last control made the retained data outdated.
unfoldable pub mark_stale : State → State
mark_stale s = record s { last_update_success = false }

-- a validation error by its key, what is raised, or the status and the time of the poll
pub data Polled : Type 0 where
  refused : String → Polled
  raised : Exception → Polled
  polled : String → Option Value → Polled

-- the guards of `async_poll_now`
unfoldable pub poll_refusal : Config → State → Option String
poll_refusal c s =
    if not c.enabled || s.closing
    then some "enable_polling_first"
    else if s.suspended
    then some "polling_suspended"
    else if s.task_running
    then some "already_running"
    else none

module _ (set_error : Exception → State → State) (set_data : Fields → State → State) where
  -- the handlers around `_async_update_data`, and the publication
  unfoldable pub publish_poll : CallEnd → Polled × State × List Report
  publish_poll (err cancelled, s, reports) =
      (raised cancelled, set_error (update_failed "Polling interrupted") s, reports)
  publish_poll (err (update_failed code), s, reports) =
      (raised (update_failed code), set_error (update_failed code) s, reports)
  publish_poll (err e, s, reports) = (raised e, s, reports)
  publish_poll (ok values, s, reports) =
      let s' = set_data values s in (polled s'.status (get values "last_success"), s', reports)

  abbrev unless_refused :
      Option String → State → Polled × State × List Report → Polled × State × List Report
  unless_refused (some key) s result = (refused key, s, [])
  unless_refused none s result = result

  unfoldable pub poll_now : Python → Config → Meeting → State → Polled × State × List Report
  unfolding poll_refusal publish_poll update_data
  poll_now py c m s =
      unless_refused (poll_refusal c s) s
        (publish_poll (update_data py c m (record s { next_attempt = 0 })))
