-- ===== src/Services/Answers.antt =====
-- What `handle` of __init__.py makes of the results of its operations, and the arguments that it
-- gives them.
use ha_aiper_ble.Prelude.{true, false, not, ◌&&◌, ◌||◌, Option, none, some, if◌then◌else◌}
use ha_aiper_ble.Prelude.Text.{Text, codes}
use ha_aiper_ble.Outcome.{Result, cancelled, update_failed, other}
use ha_aiper_ble.Value.{bool}
use ha_aiper_ble.Protocol.Query.{Query, make_query}
use ha_aiper_ble.Protocol.Preview.{Preview}
use ha_aiper_ble.Coordinator.Report.{is_text}
use ha_aiper_ble.Coordinator.State.{Config, State}
use ha_aiper_ble.Coordinator.Isolated
use ha_aiper_ble.Coordinator.Isolated.{IsolatedResult, query_isolated}
use ha_aiper_ble.Coordinator.Manual
use ha_aiper_ble.Coordinator.Manual.{poll_now}
use ha_aiper_ble.Controls.Call.{ControlResult}
use ha_aiper_ble.Services.{
  is_named, Call, legacy_probe, LastResult, Response, controlled, queried, polled, poll_failed,
  previewed, Answer, invalid, invalid_status, failure, raised, nothing, responded,
  isolated_query_of,
}
use ha_aiper_ble.Services.Probing.{Wanted, no_query, listening}

-- return result if call.return_response else None
abbrev pub reply : Call → Response → Answer
reply call response = if call.return_response then responded response else nothing

unfoldable pub control_result_of : ControlResult → LastResult
control_result_of c = record {
  mode = some (codes "cleaning_control");
  status = some c.status;
  error_code = c.error_code;
  failure_stage = none;
  cleanup = none;
  cleanup_error_code = none;
  notification_cleanup = none;
}

-- what `async_control` raises or returns
unfoldable pub control_answer : Call → ControlResult → Answer
control_answer call c =
    if c.interrupted
    then raised cancelled
    else if not c.run.state_verified
    then failure "control_unconfirmed" (some c.status)
    else reply call (controlled c)

unfoldable pub isolated_mode : Call → Config → Text
unfolding is_named
isolated_mode call c =
    if is_named call.service "query_exploratory"
    then codes "isolated_exploratory_query"
    else elim call.proxy_entry_id [
      | some entry ↦ codes "isolated_ha_proxy_trace"
      | none ↦
          if is_named call.service "query_opinfo_local_bleak"
          then codes "isolated_ha_bluetooth_local_query"
          else if c.use_local_adapter
          then codes "isolated_local_bluez_query"
          else codes "isolated_ha_bluetooth_query"
    ]

unfoldable pub isolated_result_of : Text → IsolatedResult → LastResult
isolated_result_of mode i = record {
  mode = some mode;
  status = i.report.status;
  error_code = i.report.error_code;
  failure_stage = i.report.failure_stage;
  cleanup = i.report.cleanup;
  cleanup_error_code = none;
  notification_cleanup = i.report.notification_cleanup;
}

unfoldable pub isolated_answer : Call → IsolatedResult → Answer
isolated_answer call i =
    if i.interrupted
    then raised cancelled
    else if not call.return_response && not (is_text i.report.status "query_complete")
    then invalid_status "isolated_query_failed" i.report.status
    else reply call (queried i)

-- the arguments of `async_query_isolated`
unfoldable pub asked_by : Call → Isolated.Asked
unfolding is_named isolated_query_of
asked_by call = record {
  query_type =
      if is_named call.service "query_exploratory"
      then call.query_keyword
      else elim (isolated_query_of call.service) [ none ↦ "OpInfo" | some t ↦ t ];
  local_bleak = is_named call.service "query_opinfo_local_bleak";
  proxied = elim call.proxy_entry_id [ none ↦ false | some entry ↦ true ];
  exploratory = is_named call.service "query_exploratory";
}

-- what `async_poll_now` comes to, with the state that it leaves
unfoldable pub poll_answer : Call → State → Manual.Polled → Answer
poll_answer call s (Manual.refused key) = invalid key
poll_answer call s (Manual.raised (update_failed code)) =
    if call.return_response
    then responded (poll_failed s.status s.error_code s.failures)
    else invalid_status "poll_failed" (some s.status)
poll_answer call s (Manual.raised e) = raised e
poll_answer call s (Manual.polled status time) = reply call (polled status time)

-- the query of `protocol_preview` and `query_once`
unfoldable pub built_query : Call → Option (Result Query)
unfolding is_named make_query
built_query call =
    if is_named call.service "protocol_preview" || is_named call.service "query_once"
    then some (
        make_query call.checksum_mode call.write_mode (bool (call.confirmed legacy_probe))
          call.query_type false)
    else none

unfoldable pub listens : Call → Wanted
unfolding is_named
listens call =
    if is_named call.service "listen_once"
    then listening (record { allow_missing_advertisement = call.confirmed legacy_probe })
    else no_query

abbrev pub preview_answer : Option Preview → Answer
preview_answer none = raised other
preview_answer (some p) = responded (previewed p)
