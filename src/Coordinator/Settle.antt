-- ===== src/Coordinator/Settle.antt =====
-- The end of a polling cycle (coordinator.py, `_async_update_data`): the rest of the try block, the
-- handlers and the `finally` block.
use ha_aiper_ble.Prelude.{
  ℕ, ◌+◌, ◌*◌, ◌^◌, min, max, String, Bool, true, false, ◌&&◌, Option, none, some, List, [], ◌∷◌,
  ◌==◌, if◌then◌else◌, str_eq,
}
use ha_aiper_ble.Prelude.Int.{ℤ, pos}
use ha_aiper_ble.Prelude.Text.{codes}
use ha_aiper_ble.Outcome.{Exception, protocol, update_failed, timeout, cancelled, Result, ok, err}
use ha_aiper_ble.Value.{Value, Fields, null, bool, int, field, get}
use ha_aiper_ble.S1States.{InfoState, working, info_state}
use ha_aiper_ble.Coordinator.State.{
  Config, State, effective_interval, seconds, max_interval, slow_interval,
}
use ha_aiper_ble.Coordinator.Report.{Report, or_default}
use ha_aiper_ble.Coordinator.Judge.{Transport, text_or}

-- What one call of `_async_update_data` meets: the clocks, the transport and the passive monitor.
pub record Meeting : Type 0 where
  pub now : ℕ  -- loop.time() on entry
  pub execute : Transport
  pub since : ℕ → Option ℕ  -- seconds_since_previous_query, by query index
  pub utcnow : ℕ  -- dt_util.utcnow() after the last query
  pub finished : ℕ  -- loop.time() at the end
  pub monitor : Option (Option ℤ)  -- the monitor's reading at the end, if it is active

-- str(exc) for the coordinator's own exceptions, a fixed code otherwise
unfoldable pub error_text : Exception → String
error_text (protocol code) = code
error_text (update_failed code) = code
error_text timeout = "timeout"
error_text _ = "transport_error"

-- setdefault of failure_stage and error_category
unfoldable pub mark_stage : String → Report → Report
mark_stage category r = record r {
  failure_stage = or_default r.failure_stage (text_or r.phase "query");
  error_category = or_default r.error_category category;
}

unfoldable pub mark_category : Exception → Report → Report
unfolding mark_stage
mark_category timeout r = mark_stage "timeout" r
mark_category (protocol code) r = mark_stage "protocol" r
mark_category _ r = r

-- a change of `report`, which is the last of `reports` (or is dropped, if none was made)
unfoldable pub map_last : (Report → Report) → List Report → List Report
map_last f [] = []
map_last f (r ∷ []) = f r ∷ []
map_last f (r ∷ r' ∷ rs) = r ∷ map_last f (r' ∷ rs)

-- min(MAX_INTERVAL, max(interval, SLOW_INTERVAL) * 2 ** min(failures, 4)), in seconds
unfoldable pub backoff : ℕ → ℕ → ℕ
backoff interval failures = min max_interval (max interval slow_interval * 2 ^ min failures 4)

unfoldable pub is_one : Option Value → Bool
is_one (some (int (pos n))) = n == 1
is_one (some (bool b)) = b
is_one _ = false

unfoldable pub is_working : InfoState → Bool
is_working working = true
is_working _ = false

-- values.get("temperature"), unless it is None
unfoldable pub present : Option Value → Option Value
present none = none
present (some null) = none
present (some v) = some v

-- The temperature of a cycle in which the robot reports working.
unfoldable pub note_water : Fields → ℕ → State → State
unfolding is_one is_working info_state present
note_water values utcnow s =
    if is_one (get values "info_status_raw") && is_working (info_state values)
    then elim (present (get values "temperature")) [
      | none ↦ s
      | some t ↦ record s { water_temperature = some t; water_temperature_at = some utcnow }
    ]
    else s

abbrev pub CallEnd : Type 0
CallEnd = Result Fields × State × List Report

unfoldable pub fail_report : Exception → String → Report → Report
unfolding mark_category error_text
fail_report e status r =
    let marked = mark_category e r in
    record marked { status = some status; error_code = or_default marked.error_code (error_text e) }

-- The end of the try block and its handlers, by the outcome of the cycle. A time in a dict stands as
-- a number.
unfoldable pub settle : Config → Meeting → Result Fields → State → List Report → CallEnd
unfolding note_water error_text mark_stage fail_report map_last backoff
settle c m (ok values) s reports =
    let stamped = field (codes "last_success") (int (pos m.utcnow)) values in
    let wet = note_water stamped m.utcnow s in
    (
      ok stamped,
      record wet {
        failures = 0;
        status = "ok";
        error_code = none;
        update_interval = some (seconds c.interval);
      },
      reports,
    )
settle c m (err cancelled) s reports =
    (err cancelled, record s { status = "interrupted" }, map_last (mark_stage "cancelled") reports)
settle c m (err e) s reports =
    let status : String = if s.suspended then "suspended" else "failed" in
    (
      err (update_failed (error_text e)),
      record s {
        failures = s.failures + 1;
        status = status;
        error_code = some (error_text e);
        update_interval =
            if s.suspended then none else some (seconds (backoff c.interval (s.failures + 1)));
      },
      map_last (fail_report e status) reports,
    )

-- the `finally` block
unfoldable pub finish : Config → Meeting → CallEnd → CallEnd
finish c m (result, s, reports) =
    let chosen : Option ℕ =
      if str_eq s.status "ok"
      then some (seconds (effective_interval c m.monitor reports))
      else s.update_interval in
    (
      result,
      record s {
        last_poll_queries = reports;
        update_interval = chosen;
        last_attempt_finished = some m.finished;
        next_attempt = m.finished + elim chosen [ none ↦ seconds c.interval | some delay ↦ delay ];
        task_running = false;
      },
      reports,
    )
