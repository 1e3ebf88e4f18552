-- ===== src/Coordinator/Update.antt =====
-- `_async_update_data` of coordinator.py: the loop over the queries, the try statement and the guards
-- before it. The transport is a parameter: what one awaited call of `execute` leaves behind.
pub mod Cycle
pub mod Sent
pub mod Calls
pub mod Gates
use ha_aiper_ble.Prelude.{
  ℕ, ◌+◌, ◌-◌, max, String, Bool, true, false, not, ◌||◌, Option, none, some, List, [], ◌∷◌, ltb,
  ◌==◌, if◌then◌else◌,
}
use ha_aiper_ble.Outcome.{
  Exception, protocol, update_failed, timeout, cancelled, other, Result, ok, err,
}
use ha_aiper_ble.Value.{Value, Fields, null, bool, int, end, field, get}
use ha_aiper_ble.S1States.{InfoState, working, info_state}
use ha_aiper_ble.Protocol.Query.{Query, Request, query, make_query}
use ha_aiper_ble.Coordinator.State.{
  Config, State, set_suspended, effective_interval, seconds, max_interval, slow_interval,
}
use ha_aiper_ble.Coordinator.Report.{Report, new_report, suspends, is_text, or_default}
use ha_aiper_ble.Coordinator.Verified.{Python, verified_values}
use ha_aiper_ble.Coordinator.Judge.{
  Exchange, Transport, leave_timeout, CycleEnd, is_complete, text_or, update, suspend_if, stop,
  after_query, after_judge, judge,
}
use ha_aiper_ble.Coordinator.Settle.{
  Meeting, error_text, mark_stage, mark_category, map_last, backoff, is_one, is_working, present,
  note_water, CallEnd, fail_report, settle, finish,
}

module _ (py : Python) where
  -- report = {"query_type": ..., "cycle_query_index": ...}, timed from the second query on
  abbrev pub first_report : String → ℕ → Option ℕ → Report
  first_report query_type index since = record (new_report query_type) {
    cycle_query_index = some index;
    since_previous = if index == 1 then none else since;
  }

  -- `for index, query_type in enumerate(self.poll_queries, 1)`, from a given point on. The time since
  -- the previous query is read off the clock when its report is made: it is part of the report that
  -- the transport is given.
  unfoldable pub run_queries :
      Config → Transport → (ℕ → Option ℕ) → List String → ℕ → Fields → State → CycleEnd
  unfolding judge update stop after_query after_judge
  run_queries c execute since [] index values s = stop (ok values) s []
  run_queries c execute since (query_type ∷ rest) index values s =
      if s.closing
      then stop (err cancelled) s []
      else after_query
          (make_query "omit_empty_crc" "request" (bool c.allow_missing) query_type false) s
          λ q.
            let x = execute (first_report query_type index (since index)) (query q) in
            after_judge (judge py (query q) x (record s { closing = x.closing }))
              λ more s'. run_queries c execute since rest (index + 1) (update values more) s'

-- The try statement, entered with the task reserved.
unfoldable pub run_cycle : Python → Config → Meeting → State → CallEnd
unfolding run_queries settle finish
run_cycle py c m s =
    let cycle = run_queries py c m.execute m.since c.poll_queries 1 end s in
    finish c m (settle c m cycle.outcome cycle.state cycle.reports)

-- if self.last_update_success and self.data is not None
unfoldable pub retained : Bool → Option Fields → Result Fields
retained true (some values) = ok values
retained _ _ = err (update_failed "Waiting for the next bounded polling interval")

-- `_async_update_data`. The list is that of the queries sent.
unfoldable pub update_data : Python → Config → Meeting → State → CallEnd
unfolding run_cycle retained
update_data py c m s =
    if not c.enabled || s.closing
    then (err (update_failed "Polling disabled"), s, [])
    else if s.suspended
    then (err (update_failed "Polling suspended; review diagnostics before reload"), s, [])
    else if ltb (m.now + seconds 1) s.next_attempt
    then (
      retained s.last_update_success s.values,
      record s { update_interval = some (max (seconds 1) (s.next_attempt - m.now)) },
      [],
    )
    else if s.task_running
    then (
      err (update_failed "A manual probe is already running"),
      record s { status = "busy"; error_code = some "manual_probe_running" },
      [],
    )
    else run_cycle py c m (record s { task_running = true; status = "polling"; error_code = none })
