-- ===== src/Services/Serve.antt =====
-- `handle` of `async_setup` in __init__.py: the checks, the operation, and the answer. What the robot,
-- BlueZ and the clock do is the parameter `World`.
use ha_aiper_ble.Prelude.{
  ℕ, String, inl, inr, true, not, ◌&&◌, ◌||◌, Option, none, some, if◌then◌else◌,
}
use ha_aiper_ble.Prelude.Text.{Bytes}
use ha_aiper_ble.Outcome.{Exception, ok, err, other}
use ha_aiper_ble.Value.{Value, Fields}
use ha_aiper_ble.Protocol.Query.{query}
use ha_aiper_ble.Protocol.Preview.{preview}
use ha_aiper_ble.Coordinator.State.{Config, State}
use ha_aiper_ble.Coordinator.Verified.{Python}
use ha_aiper_ble.Coordinator.Judge.{Transport}
use ha_aiper_ble.Coordinator.Settle.{Meeting}
use ha_aiper_ble.Coordinator.Isolated
use ha_aiper_ble.Coordinator.Isolated.{IsolatedResult, query_isolated}
use ha_aiper_ble.Coordinator.Manual.{poll_now}
use ha_aiper_ble.Controls.Call.{async_control}
use ha_aiper_ble.Services.{
  is_named, name_of, Call, app_closed, safe_to_move, query_write, notifications, proxy_logging,
  Runtime, Answer, invalid, cooling, raised, Served, is_control_service, is_query_service,
}
use ha_aiper_ble.Services.Probing.{Local, wanted, diagnose}
use ha_aiper_ble.Services.Answers.{
  control_answer, control_result_of, isolated_mode, isolated_result_of, isolated_answer, asked_by,
  poll_answer, built_query, listens, preview_answer,
}

-- What a call meets: the time, what exchanges come to, and what a local diagnostic meets.
pub record World : Type 0 where
  pub now : ℕ
  pub execute : Transport
  pub meeting : Meeting
  pub local : Local

abbrev pub refuse : Answer → Runtime → Served
refuse answer rt = record { answer = answer; runtime = rt; dispatched = 0 }

unfoldable pub control_refusal : Call → Runtime → Option String
control_refusal call rt =
    if not (call.confirmed app_closed && call.confirmed safe_to_move)
    then some "control_confirmations"
    else if not rt.has_coordinator
    then some "coordinator_unavailable"
    else none

unfoldable pub query_refusal : Call → Runtime → Option String
unfolding is_named
query_refusal call rt =
    if not (call.confirmed app_closed)
      || not (call.confirmed query_write)
      || not (call.confirmed notifications)
    then some "isolated_confirmations"
    else if not rt.has_coordinator
    then some "coordinator_unavailable"
    else if is_named call.service "query_opinfo_proxy_trace" && not (call.confirmed proxy_logging)
    then some "proxy_logging_confirmation"
    else none

unfoldable pub poll_refusal : Call → Runtime → Option String
poll_refusal call rt =
    if not (call.confirmed app_closed)
    then some "confirm_app_closed"
    else if not rt.has_coordinator
    then some "coordinator_unavailable"
    else none

abbrev pub unless_refused : Option String → Runtime → Served → Served
unless_refused (some key) rt served = refuse (invalid key) rt
unless_refused none rt served = served

module _ (set_error : Exception → State → State) (set_data : Fields → State → State)
    (loads : Bytes → Option Value) (py : Python) (c : Config) where
  unfoldable pub serve_control : World → Call → Runtime → Served
  unfolding name_of async_control control_answer control_result_of
  serve_control w call rt =
      elim (async_control set_error py c w.execute w.now (name_of call.service) rt.state) [
        | inl key ↦ record { answer = invalid key; runtime = rt; dispatched = 1 }
        | inr (result, s) ↦ record {
          answer = control_answer call result;
          runtime = record rt { last_result = control_result_of result; state = s };
          dispatched = 1;
        }
      ]

  abbrev refusal_of : Isolated.Refusal → Answer
  refusal_of (Isolated.refused key) = invalid key
  refusal_of (Isolated.cooldown left) = cooling left

  unfoldable pub serve_query : World → Call → Runtime → Served
  unfolding query_isolated asked_by isolated_answer isolated_result_of isolated_mode
  serve_query w call rt =
      elim (query_isolated set_error py c w.execute w.now (asked_by call) rt.state) [
        | none ↦ record {
          answer = raised other;
          runtime = record rt { state = record rt.state { task_running = true } };
          dispatched = 1;
        }
        | some (inl refusal) ↦ record { answer = refusal_of refusal; runtime = rt; dispatched = 1 }
        | some (inr (result, s)) ↦ record {
          answer = isolated_answer call result;
          runtime = record rt {
            last_result = isolated_result_of (isolated_mode call c) result;
            state = s;
          };
          dispatched = 1;
        }
      ]

  unfoldable pub serve_poll : World → Call → Runtime → Served
  unfolding poll_now poll_answer
  serve_poll w call rt =
      let (result, s, reports) = poll_now set_error set_data py c w.meeting rt.state in
      record {
        answer = poll_answer call s result;
        runtime = record rt { state = s };
        dispatched = 0;
      }

  -- the services that need no coordinator
  unfoldable pub serve_local : World → Call → Runtime → Served
  unfolding is_named built_query preview diagnose listens
  serve_local w call rt = elim (built_query call) [
    | some (err e) ↦ refuse (raised e) rt
    | some (ok q) ↦
        if is_named call.service "protocol_preview"
        then refuse (preview_answer (preview loads (query q))) rt
        else diagnose set_error w.local call (wanted q) rt
    | none ↦ diagnose set_error w.local call (listens call) rt
  ]

  unfoldable pub serve : World → Call → Runtime → Served
  unfolding is_named is_control_service control_refusal serve_control is_query_service query_refusal
      serve_query poll_refusal serve_poll serve_local
  serve w call rt =
      if rt.state.closing
      then refuse (invalid "unloading") rt
      else if rt.state.task_running
      then refuse (invalid "probe_running") rt
      else if is_control_service call.service
      then unless_refused (control_refusal call rt) rt (serve_control w call rt)
      else if is_query_service call.service
      then unless_refused (query_refusal call rt) rt (serve_query w call rt)
      else if is_named call.service "poll_now"
      then unless_refused (poll_refusal call rt) rt (serve_poll w call rt)
      else serve_local w call rt

  -- the whole handler, of the entry if it is loaded
  unfoldable pub handle : World → Call → Option Runtime → Answer × Option Runtime
  unfolding serve
  handle w call none = (invalid "select_loaded_entry", none)
  handle w call (some rt) = let served = serve w call rt in (served.answer, some served.runtime)
