-- ===== src/Services/Guards.antt =====
-- What each service asks its caller to confirm, and that nothing happens where this is missing.
use ha_aiper_ble.Prelude.{
  String, ◌≡◌, refl, ◌≢◌, true, false, ◌&&◌, Option, none, some, arith, if◌then◌else◌,
}
use ha_aiper_ble.Prelude.Text.{Text, Bytes}
use ha_aiper_ble.Outcome.{Exception, Result, ok, err}
use ha_aiper_ble.Value.{Value, Fields}
use ha_aiper_ble.Protocol.Query.{Query}
use ha_aiper_ble.Protocol.Query
use ha_aiper_ble.Coordinator.State.{Config, State}
use ha_aiper_ble.Coordinator.Verified.{Python}
use ha_aiper_ble.Services.{
  Service, start_cleaning, stop_cleaning, query_s1_info, query_opinfo, query_info, query_warn,
  query_opinfo_local_bleak, query_opinfo_proxy_trace, query_exploratory, poll_now, query_once,
  listen_once, read_once, discover, is_named, Call, Confirmation, app_closed, safe_to_move,
  query_write, notifications, proxy_logging, read_only, legacy_probe, Runtime, invalid, raised,
  Served, is_control_service, isolated_query_of, is_query_service,
}
use ha_aiper_ble.Services.Probing.{
  Wanted, no_query, wanted, listening, diagnostic_refusal, is_connecting, run_diagnostic, diagnose,
}
use ha_aiper_ble.Services.Answers.{built_query, listens, preview_answer}
use ha_aiper_ble.Protocol.Preview.{preview}
use ha_aiper_ble.Services.Serve.{
  World, refuse, control_refusal, query_refusal, poll_refusal, unless_refused, serve_control,
  serve_query, serve_poll, serve_local, serve,
}
use ha_aiper_ble.Services.Needs.{
  needs, is_query, Refuses, Refuses-refuse, Refuses-if, Refuses-unless_refused,
  control_refusal-ne-none, poll_refusal-ne-none, query_refusal-ne-none, of,
}

module _ (set_error : Exception → State → State) (set_data : Fields → State → State)
    (loads : Bytes → Option Value) (py : Python) (c : Config) where
  diagnose-Refuses :
      (call : Call) (query : Wanted) (rt : Runtime)
      → diagnostic_refusal call query ≢ none
      → Refuses (λ w. diagnose set_error w.local call query rt) rt
  unfolding diagnose
  diagnose-Refuses call query rt h =
      refusals rt.target.adapter_path (diagnostic_refusal call query) h
    where
      refusals :
          (path : Option Text) (o : Option String)
          → o ≢ none
          → Refuses
              (λ w. elim path [
                | none ↦ refuse (invalid "local_adapter_required") rt
                | some p ↦ elim o [
                  | some key ↦ refuse (invalid key) rt
                  | none ↦ run_diagnostic set_error w.local call query rt
                ]
              ])
              rt
      refusals none o h = (invalid "local_adapter_required", tt, λ w. refl)
      refusals (some p) none h = absurd (h refl)
      refusals (some p) (some key) h = (invalid key, tt, λ w. refl)

  built-Refuses :
      (call : Call) (rt : Runtime) (r : Result Query)
      → ((q : Query) → diagnostic_refusal call (wanted q) ≢ none)
      → is_named call.service "protocol_preview" ≡ false
      → Refuses
          (λ w. elim r [
            | err e ↦ refuse (raised e) rt
            | ok q ↦
                if is_named call.service "protocol_preview"
                then refuse (preview_answer (preview loads (Query.query q))) rt
                else diagnose set_error w.local call (wanted q) rt
          ])
          rt
  built-Refuses call rt (err e) h n = (raised e, tt, λ w. refl)
  built-Refuses call rt (ok q) h n = rw n (diagnose-Refuses call (wanted q) rt (h q))

  -- what `serve` does once the entry is free
  abbrev free : World → Call → Runtime → Served
  free w call rt =
      if is_control_service call.service
      then unless_refused (control_refusal call rt) rt
          (serve_control set_error set_data loads py c w call rt)
      else if is_query_service call.service
      then unless_refused (query_refusal call rt) rt
          (serve_query set_error set_data loads py c w call rt)
      else if is_named call.service "poll_now"
      then unless_refused (poll_refusal call rt) rt
          (serve_poll set_error set_data loads py c w call rt)
      else serve_local set_error set_data loads py c w call rt

  query-Refuses :
      (call : Call) (rt : Runtime) (k : Confirmation)
      → is_query k ≡ true
      → call.confirmed k ≡ false
      → Refuses
          (λ w.
            unless_refused
              (query_refusal call rt)
              rt
              (serve_query set_error set_data loads py c w call rt))
          rt
  query-Refuses call rt k q n =
      Refuses-unless_refused (query_refusal call rt) _ rt (query_refusal-ne-none call rt k q n)

  control-Refuses :
      (call : Call) (rt : Runtime)
      → call.confirmed app_closed && call.confirmed safe_to_move ≡ false
      → Refuses
          (λ w.
            unless_refused
              (control_refusal call rt)
              rt
              (serve_control set_error set_data loads py c w call rt))
          rt
  control-Refuses call rt n =
      Refuses-unless_refused (control_refusal call rt) _ rt (control_refusal-ne-none call rt n)

  free-Refuses :
      (service : Service) (call : Call) (rt : Runtime) (k : Confirmation)
      → needs service k ≡ true
      → call.confirmed k ≡ false
      → Refuses (λ w. free w (of service call) rt) rt
  unfolding needs is_control_service is_query_service is_named isolated_query_of serve_local
      built_query listens diagnostic_refusal is_connecting query_refusal
  free-Refuses start_cleaning call rt app_closed h n =
      control-Refuses (of start_cleaning call) rt (ground arith)
  free-Refuses start_cleaning call rt safe_to_move h n =
      control-Refuses (of start_cleaning call) rt (ground arith)
  free-Refuses stop_cleaning call rt app_closed h n =
      control-Refuses (of stop_cleaning call) rt (ground arith)
  free-Refuses stop_cleaning call rt safe_to_move h n =
      control-Refuses (of stop_cleaning call) rt (ground arith)
  free-Refuses query_s1_info call rt k h n = query-Refuses (of query_s1_info call) rt k h n
  free-Refuses query_opinfo call rt k h n = query-Refuses (of query_opinfo call) rt k h n
  free-Refuses query_info call rt k h n = query-Refuses (of query_info call) rt k h n
  free-Refuses query_warn call rt k h n = query-Refuses (of query_warn call) rt k h n
  free-Refuses query_opinfo_local_bleak call rt k h n =
      query-Refuses (of query_opinfo_local_bleak call) rt k h n
  free-Refuses query_exploratory call rt k h n = query-Refuses (of query_exploratory call) rt k h n
  free-Refuses query_opinfo_proxy_trace call rt app_closed h n =
      query-Refuses (of query_opinfo_proxy_trace call) rt app_closed refl n
  free-Refuses query_opinfo_proxy_trace call rt query_write h n =
      query-Refuses (of query_opinfo_proxy_trace call) rt query_write refl n
  free-Refuses query_opinfo_proxy_trace call rt notifications h n =
      query-Refuses (of query_opinfo_proxy_trace call) rt notifications refl n
  free-Refuses query_opinfo_proxy_trace call rt proxy_logging h n =
      Refuses-unless_refused (query_refusal (of query_opinfo_proxy_trace call) rt) _ rt
        (ground arith)
  free-Refuses poll_now call rt app_closed h n =
      Refuses-unless_refused _ _ rt (poll_refusal-ne-none (of poll_now call) rt n)
  free-Refuses query_once call rt app_closed h n =
      built-Refuses (of query_once call) rt _ (λ q. ground arith) refl
  free-Refuses query_once call rt query_write h n =
      built-Refuses (of query_once call) rt _ (λ q. ground arith) refl
  free-Refuses query_once call rt notifications h n =
      built-Refuses (of query_once call) rt _ (λ q. ground arith) refl
  free-Refuses listen_once call rt app_closed h n =
      diagnose-Refuses (of listen_once call)
        (listening (record { allow_missing_advertisement = call.confirmed legacy_probe })) rt
        (ground arith)
  free-Refuses listen_once call rt notifications h n =
      diagnose-Refuses (of listen_once call)
        (listening (record { allow_missing_advertisement = call.confirmed legacy_probe })) rt
        (ground arith)
  free-Refuses read_once call rt app_closed h n =
      diagnose-Refuses (of read_once call) no_query rt (ground arith)
  free-Refuses read_once call rt read_only h n =
      diagnose-Refuses (of read_once call) no_query rt (ground arith)
  free-Refuses discover call rt app_closed h n =
      diagnose-Refuses (of discover call) no_query rt (ground arith)
  free-Refuses service call rt k h n = cc

  -- A service is refused, whatever the robot, the bus and the clock would do, if one of the
  -- confirmations that it needs is missing: the answer is a validation error or the one that the
  -- request cannot be built, and the state of the entry is as before.
  pub serve-Refuses :
      (call : Call) (rt : Runtime) (k : Confirmation)
      → needs call.service k ≡ true
      → call.confirmed k ≡ false
      → Refuses (λ w. serve set_error set_data loads py c w call rt) rt
  unfolding serve
  serve-Refuses call rt k h n =
      Refuses-if rt.state.closing _ _ rt (Refuses-refuse (invalid "unloading") rt tt) (
        Refuses-if rt.state.task_running _ _ rt (Refuses-refuse (invalid "probe_running") rt tt)
          (free-Refuses call.service call rt k h n))
