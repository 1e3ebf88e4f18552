-- ===== src/Coordinator/Tests.antt =====
-- Runs of the coordinator, and the theorems at concrete inputs.
use ha_aiper_ble.Prelude.{
  suc, ◌+◌, ◌*◌, ◌≤◌, String, ◌≡◌, refl, sym, ◌∙◌, ◌≢◌, true, false, none, some, [], arith,
}
use ha_aiper_ble.Prelude.Int.{pos}
use ha_aiper_ble.Prelude.Text.{codes}
use ha_aiper_ble.Outcome.{Result, ok, err, update_failed, cancelled}
use ha_aiper_ble.Value.{Fields, obj, int, field, end, get}
use ha_aiper_ble.Value.Json.{dumps, utf8}
use ha_aiper_ble.Protocol.Crc.{crc16}
use ha_aiper_ble.Protocol.Telemetry.{query_telemetry}
use ha_aiper_ble.Protocol.Query.{make_query}
use ha_aiper_ble.Coordinator.Samples.{
  py, config, info_data, info_response, info_result, answering, unclean, meeting, waiting,
  info_request,
}
use ha_aiper_ble.Coordinator.State.{
  State, init_state, seconds, min_interval, max_interval, slow_interval,
}
use ha_aiper_ble.Coordinator.Verified.{verified_values}
use ha_aiper_ble.Coordinator.Verified.Sound.{IsSound, verified_values-IsSound}
use ha_aiper_ble.Coordinator.Update.{run_queries, run_cycle, update_data}
use ha_aiper_ble.Coordinator.Judge.{Transport}
use ha_aiper_ble.Coordinator.Settle.{backoff}
use ha_aiper_ble.Coordinator.Update.Sent.{Sent, run_queries-Sent}
use ha_aiper_ble.Coordinator.Update.Gates.{backoff_bounds, run_cycle_cooldown}
use ha_aiper_ble.Coordinator.Update.Calls.{
  IsOpen, IsFresh, IsFailed, IsUntouched, update_data-gated, update_data-IsFresh,
  update_data-IsFailed,
}

info_verified : verified_values py (some (obj info_response)) info_request ≡ ok info_result
unfolding verified_values get dumps utf8 crc16 query_telemetry
info_verified = refl

abbrev fresh_values : Fields
fresh_values = field (codes "last_success") (int (pos 1700000000)) info_result

waiting-IsOpen : (transport : Transport) → IsOpen config (meeting transport) waiting
unfolding init_state
waiting-IsOpen transport = record {
  enabled = refl;
  loaded = refl;
  trusted = refl;
  due = refl;
  free = refl;
}

verified_values-IsSound_example : IsSound py info_response info_data info_request info_result
unfolding get
verified_values-IsSound_example =
    verified_values-IsSound py info_response info_data info_result info_request refl info_verified

update_data-IsFresh_example :
    IsFresh py config (meeting answering) (update_data py config (meeting answering) waiting)
unfolding update_data get dumps utf8 crc16 query_telemetry verified_values init_state make_query
update_data-IsFresh_example =
    update_data-IsFresh py config (meeting answering) waiting fresh_values
      (waiting-IsOpen answering) refl

update_data-IsFailed_example :
    IsFailed config waiting (update_data py config (meeting unclean) waiting)
unfolding update_data init_state make_query
update_data-IsFailed_example =
    update_data-IsFailed py config (meeting unclean) waiting "cleanup_requires_review"
      (waiting-IsOpen unclean) refl

-- while another task runs
abbrev busy : State
busy = record waiting { task_running = true }

busy-closed : ¬ (IsOpen config (meeting answering) busy)
busy-closed h = cc

update_data-gated_example :
    ((update_data py config (meeting answering) busy).2 ≡ [])
    × IsUntouched busy (update_data py config (meeting answering) busy).1
update_data-gated_example = update_data-gated py config (meeting answering) busy busy-closed

unclean_run :
    (run_cycle py config (meeting unclean) waiting).0
    ≡ err (update_failed "cleanup_requires_review")
unfolding run_cycle init_state make_query
unclean_run = refl

abbrev failed_with : String → Result Fields
failed_with code = err (update_failed code)

failed-ne-cancelled : (code : String) → failed_with code ≢ err cancelled
failed-ne-cancelled code h = cc

run_cycle_cooldown_example :
    ((run_cycle py config (meeting unclean) waiting).1.task_running ≡ false)
    × ((meeting unclean).finished + seconds min_interval
        ≤ (run_cycle py config (meeting unclean) waiting).1.next_attempt)
run_cycle_cooldown_example =
    run_cycle_cooldown py config (meeting unclean) waiting (omega arith) (omega arith)
      (λ h. failed-ne-cancelled "cleanup_requires_review" (sym unclean_run ∙ h))

run_queries-Sent_example :
    Sent config answering
      (λ i. none)
      config.poll_queries
      1
      (run_queries py config answering (λ i. none) config.poll_queries 1 end waiting).reports
run_queries-Sent_example =
    run_queries-Sent py config answering (λ i. none) config.poll_queries 1 end waiting

backoff_bounds_example :
    (2 * slow_interval ≤ backoff 300 (suc 3))
    × (backoff 300 (suc 3) ≤ max_interval)
    × (300 ≤ backoff 300 (suc 3))
    × (backoff 300 3 ≤ backoff 300 (suc 3))
backoff_bounds_example = backoff_bounds 300 3 (omega arith)
