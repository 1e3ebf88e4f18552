-- ===== src/Bluez/Chain.antt =====
-- A whole query over BlueZ: `probe` (probe.py) with the exchange of `QueryBluez` (telemetry.py), as
-- local_transport.py puts them together.
use ha_aiper_ble.Prelude.{
  String, ◌≡◌, refl, sym, ap, ◌∙◌, true, false, ◌&&◌, Option, none, some, [], if◌then◌else◌,
  if_elim,
}
use ha_aiper_ble.Prelude.Text.{Bytes}
use ha_aiper_ble.Value.{Value, Fields, obj}
use ha_aiper_ble.Outcome.{ok}
use ha_aiper_ble.Target.{Target}
use ha_aiper_ble.Protocol.Query.{Request}
use ha_aiper_ble.Protocol.Reply.{Floats}
use ha_aiper_ble.Protocol.Telemetry.{query_telemetry}
use ha_aiper_ble.Coordinator.Report.{Report, or_default}
use ha_aiper_ble.Coordinator.Judge.{is_complete}
use ha_aiper_ble.Transport.Release.Owners.{complete_report}
use ha_aiper_ble.Bluez.Guards.{Fault, Asked}
use ha_aiper_ble.Bluez.Guards
use ha_aiper_ble.Bluez.Permits.{Permits}
use ha_aiper_ble.Bluez.Query.{Wire}
use ha_aiper_ble.Bluez.Exchange.{query_once}
use ha_aiper_ble.Bluez.Exchange.Closes.{query_once-IsAnswered}
use ha_aiper_ble.Bluez.Probe.{Bus, Run, probe, is_some}
use ha_aiper_ble.Bluez.Probe.Ends.{complete_not_review}
use ha_aiper_ble.Bluez.Probe.Attempts.{probe-IsGone}

-- a new QueryBluez
abbrev pub new_permits : Permits
new_permits = record {
  read_path = none;
  permit = none;
  query_path = none;
  start_used = false;
  stop_used = false;
  write_plan = [];
  sent = [];
}

module _ (floats : Floats) (loads : Bytes → Option Value) (t : Target) (request : Request) where
  -- api.query_once, the robot and BlueZ given
  unfoldable pub exchange_over : Wire → Report → Option Fault × Option String × Report
  unfolding query_once
  exchange_over wire r =
      let (failure, s) = query_once floats loads t request wire false new_permits r in
      (failure, s.stage, s.report)

  -- the guarded probe, for a target with an adapter
  unfoldable pub query_local : (String → String) → Bus → Wire → Report → Run
  unfolding exchange_over probe
  query_local named bus wire r =
      probe named (record bus { exchange = exchange_over wire }) t
        (record { connect = true; read = false; query = some (Guards.request request) }) r

  -- `query_once` of local_transport.py: what it raises, and the report. The first update sets entries
  -- that the probe's run reads, and the last one names the phase.
  unfoldable pub local_query_once : (String → String) → Bus → Wire → Report → Option Fault × Report
  unfolding query_local
  local_query_once named bus wire r =
      let started = record r { phase = some "preflight"; write_attempts = some 0 } in
      let (failure, s) = query_local named bus wire started in
      if is_some t.adapter_path && is_some t.adapter_address
      then (failure, record s.report { phase = or_default s.stage "preflight" })
      else (
        none,
        record started {
          status = some "failed";
          error_code = some "local_adapter_required";
          failure_stage = some "preflight";
          cleanup = some "not_connected";
        },
      )

  -- A query over BlueZ whose report is complete at the end, of a run that is not cancelled in its
  -- cleanup, counts for the coordinator, and an object that answers the request is in its report.
  pub query_local-IsComplete :
      (named : String → String) (bus : Bus) (wire : Wire) (r : Report)
      → (query_local named bus wire r).0 ≡ none
      → (query_local named bus wire r).1.report.status ≡ some "query_complete"
      → (is_complete (query_local named bus wire r).1.report ≡ true)
        × ((fields : Fields) × (candidates : Fields) × ((query_local named bus wire
                r).1.report.protocol_response
              ≡ some (obj fields))
            × (query_telemetry floats fields request ≡ ok (some candidates)))
  unfolding query_local exchange_over
  query_local-IsComplete named bus wire r h complete =
      let (seen, gone, (before, quiet, final)) =
        probe-IsGone (record bus { exchange = exchange_over wire }) t
          (record { connect = true; read = false; query = some (Guards.request request) }) named r
          (Guards.request request) refl refl h complete in
      let s = query_once floats loads t request wire false new_permits before in
      let status : s.1.report.status ≡ some "query_complete" =
        ap (λ x. x.status) (sym final) ∙ complete in
      let (answer, stopped) =
        query_once-IsAnswered floats loads t request wire false new_permits before quiet
          (complete_not_review status) in
      (
        complete_report _ complete gone.cleanup (ap (λ x. x.notification_cleanup) final ∙ stopped),
        (
          answer.fields,
          answer.candidates,
          ap (λ x. x.protocol_response) final ∙ answer.kept,
          answer.matching,
        ),
      )

  -- A query on the pinned adapter whose report is complete at the end, and that raises nothing, counts
  -- for the coordinator, and an object that answers the request is in its report.
  pub local_query_once-IsComplete :
      (named : String → String) (bus : Bus) (wire : Wire) (r : Report)
      → (local_query_once named bus wire r).0 ≡ none
      → (local_query_once named bus wire r).1.status ≡ some "query_complete"
      → (is_complete (local_query_once named bus wire r).1 ≡ true)
        × ((fields : Fields) × (candidates : Fields) × ((local_query_once named bus wire
                r).1.protocol_response
              ≡ some (obj fields))
            × (query_telemetry floats fields request ≡ ok (some candidates)))
  unfolding local_query_once is_complete
  local_query_once-IsComplete named bus wire r =
      let started = record r { phase = some "preflight"; write_attempts = some 0 } in
      if_elim
        (λ (x : Option Fault × Report).
          x.0 ≡ none
          → x.1.status ≡ some "query_complete"
          → (is_complete x.1 ≡ true)
            × ((fields : Fields) × (candidates : Fields) × (x.1.protocol_response
                  ≡ some (obj fields))
                × (query_telemetry floats fields request ≡ ok (some candidates))))
        (is_some t.adapter_path && is_some t.adapter_address)
        (λ has. query_local-IsComplete named bus wire started) (λ lacks h complete. cc)
