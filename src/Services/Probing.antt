-- ===== src/Services/Probing.antt =====
-- The local diagnostics of `handle` in __init__.py: the probe that `open_bluez` and `probe` of probe.py
-- run, and what becomes of its report. What BlueZ does is the parameter `Local`.
use ha_aiper_ble.Prelude.{
  ◌+◌, String, Bool, true, false, not, ◌&&◌, ◌||◌, Option, none, some, ◌++◌, map, if◌then◌else◌,
}
use ha_aiper_ble.Prelude.Text.{Text, codes}
use ha_aiper_ble.Outcome.{cancelled, update_failed, Exception}
use ha_aiper_ble.Target.{Target}
use ha_aiper_ble.Protocol.Query.{Query, query, is_upper}
use ha_aiper_ble.Protocol.Hint.{Listen}
use ha_aiper_ble.Coordinator.Report.{Report, new_report, is_text}
use ha_aiper_ble.Coordinator.State.{State, set_suspended}
use ha_aiper_ble.Bluez.Guards.{
  probe_error, interrupted, Checked, passed, failed, Asked, request, listen,
}
use ha_aiper_ble.Bluez.Probe.{Bus, Options, Run, probe}
use ha_aiper_ble.Services.{
  Service, is_named, Call, app_closed, query_write, notifications, read_only, LastResult, Runtime,
  Answer, invalid, failure, raised, nothing, responded, probed, Served,
}

-- What a diagnostic meets: how the bus opens, the run over it, the text of `type(exc).__name__` for
-- exceptions of other classes, and whether the entry is closing afterwards.
pub record Local : Type 0 where
  pub opened : Checked {0} Unit
  pub bus : Bus
  pub named : String → String
  pub closing : Bool

-- `query` of a diagnostic: a Query, a Listen or None
pub data Wanted : Type 0 where
  no_query : Wanted
  wanted : Query → Wanted
  listening : Listen → Wanted

unfoldable pub asked_of : Wanted → Option Asked
asked_of no_query = none
asked_of (wanted q) = some (request (query q))
asked_of (listening l) = some (listen l)

-- `open_bluez`: what it raises before the body runs
unfoldable pub open_bluez : Checked {0} Unit → Bool → Option Asked → Checked {0} Unit
open_bluez (failed e) allow_read asked = failed e
open_bluez (passed u) allow_read none = passed tt
open_bluez (passed u) allow_read (some asked) =
    if allow_read
    then failed (probe_error "Cannot combine raw read and protocol query.")
    else passed tt

unfoldable pub is_connecting : Service → Bool
unfolding is_named
is_connecting service =
    is_named service "discover"
    || is_named service "read_once"
    || is_named service "query_once"
    || is_named service "listen_once"

-- what is missing for a diagnostic, by the key of its error
unfoldable pub diagnostic_refusal : Call → Wanted → Option String
unfolding is_named is_connecting
diagnostic_refusal call wanted_query =
    if is_connecting call.service && not (call.confirmed app_closed)
    then some "confirm_app_closed"
    else if is_named call.service "read_once" && not (call.confirmed read_only)
    then some "confirm_read_only"
    else if is_named call.service "listen_once" && not (call.confirmed notifications)
    then some "confirm_notifications"
    else elim wanted_query [
      | wanted q ↦
          if not (call.confirmed query_write) || not (call.confirmed notifications)
          then some "confirm_query_write"
          else none
      | _ ↦ none
    ]

-- str.lower(), of letters
unfoldable pub lower : Text → Text
unfolding is_upper
lower text = map (λ c. if is_upper c then c + 32 else c) text

-- report["mode"]
unfoldable pub mode_of : Service → Wanted → Text
unfolding is_named is_connecting lower
mode_of service (listening l) = codes "connect_listen_only_disconnect"
mode_of service (wanted q) =
    codes "connect_notify_" ++ (lower (codes q.query_type) ++ codes "_disconnect")
mode_of service no_query =
    if is_named service "read_once"
    then codes "connect_read_once_disconnect"
    else if is_connecting service
    then codes "connect_discover_disconnect"
    else codes "preflight_only"

abbrev running : Report
running = record (new_report "") { status = some "running" }

-- How the try block and its handlers end: the exception that goes on, and the report with its
-- cleanup_error_code.
abbrev pub ProbeEnd : Type 0
ProbeEnd = Option Exception × Report × Option String

unfoldable pub setup_failed : Report → Report
setup_failed r = record r {
  status = some "failed";
  error_code = some "transport_setup_failed";
  failure_stage = some "transport_setup";
}

unfoldable pub end_probe : Run → ProbeEnd
unfolding setup_failed
end_probe (none, p) = (none, p.report, p.cleanup_error_code)
end_probe (some interrupted, p) =
    (some cancelled, record p.report { status = some "interrupted" }, p.cleanup_error_code)
end_probe (some e, p) = (none, setup_failed p.report, p.cleanup_error_code)

unfoldable pub run_probe : Local → Target → Options → ProbeEnd
unfolding open_bluez probe end_probe setup_failed
run_probe local t options = elim (open_bluez local.opened options.read options.query) [
  | passed u ↦ end_probe (probe local.named local.bus t options running)
  | failed e ↦ elim e [
    | interrupted ↦ (some cancelled, record running { status = some "interrupted" }, none)
    | _ ↦ (none, setup_failed running, none)
  ]
]

unfoldable pub is_final : Option String → Bool
is_final status =
    is_text status "preflight_passed_no_connection"
    || is_text status "discovery_complete"
    || is_text status "read_complete"
    || is_text status "query_complete"
    || is_text status "listen_complete"

unfoldable pub result_of : Text → Report → Option String → LastResult
result_of mode r code = record {
  mode = some mode;
  status = r.status;
  error_code = r.error_code;
  failure_stage = r.failure_stage;
  cleanup = r.cleanup;
  cleanup_error_code = code;
  notification_cleanup = r.notification_cleanup;
}

module _ (set_error : Exception → State → State) where
  -- the `finally` block, of the coordinator if there is one
  unfoldable pub suspend_after : Bool → State → State
  unfolding set_suspended
  suspend_after false s = record s { task_running = false }
  suspend_after true s =
      record (set_error (update_failed "manual_probe_cleanup_requires_review")
        (record (set_suspended true s) {
          status = "suspended";
          error_code = some "manual_probe_cleanup_requires_review";
          update_interval = none;
        })) { task_running = false }

  abbrev pub answer_of : Option Exception → Report → Bool → Answer
  answer_of (some e) r return_response = raised e
  answer_of none r return_response =
      if not (is_final r.status)
      then failure "probe_stopped" r.status
      else if return_response
      then responded (probed r)
      else nothing

  unfoldable pub run_diagnostic : Local → Call → Wanted → Runtime → Served
  unfolding is_named mode_of asked_of is_connecting run_probe is_final result_of suspend_after
  run_diagnostic local call w rt =
      let (escaped, r, code) = run_probe local rt.target (record {
        connect = is_connecting call.service;
        read = is_named call.service "read_once";
        query = asked_of w;
      }) in
      record {
        answer = answer_of escaped r call.return_response;
        runtime = record rt {
          last_result = result_of (mode_of call.service w) r code;
          state =
              suspend_after (is_text r.status "cleanup_requires_review" && rt.has_coordinator)
                (record rt.state { task_running = true; closing = local.closing });
        };
        dispatched = 2;
      }

  -- from the check of the adapter on
  unfoldable pub diagnose : Local → Call → Wanted → Runtime → Served
  unfolding diagnostic_refusal run_diagnostic
  diagnose local call w rt = elim rt.target.adapter_path [
    | none ↦ record { answer = invalid "local_adapter_required"; runtime = rt; dispatched = 0 }
    | some path ↦ elim (diagnostic_refusal call w) [
      | some key ↦ record { answer = invalid key; runtime = rt; dispatched = 0 }
      | none ↦ run_diagnostic local call w rt
    ]
  ]
