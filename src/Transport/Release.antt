-- ===== src/Transport/Release.antt =====
-- The `finally` block of `query_once` (bluetooth_transport.py): the notifications are stopped and every
-- client is disconnected.
pub mod Owners
use ha_aiper_ble.Prelude.{
  String, Bool, true, false, ◌&&◌, Option, none, some, List, [], ◌∷◌, if◌then◌else◌,
}
use ha_aiper_ble.Coordinator.Report.{Report, is_text, or_default}
use ha_aiper_ble.Transport.Session.{Failure, cancelled, error_category, Teardown}

-- What the cleanup has come to: the report, the category of a stop that failed, whether anything
-- failed, and whether a cancellation has cut the cleanup short.
pub record Cleanup : Type 0 where
  pub report : Report
  pub stop_category : Option String
  pub failed : Bool
  pub cut_short : Bool

abbrev pub unless_cut : Cleanup → (Cleanup → Cleanup) → Cleanup
unless_cut c next = if c.cut_short then c else next c

-- await asyncio.wait_for(client.stop_notify(char), 5)
unfoldable pub stop_notify : Option Failure → Cleanup → Cleanup
unfolding error_category
stop_notify none c = record c {
  report = record c.report { notification_cleanup = some "stop_confirmed" };
}
stop_notify (some cancelled) c = record c { cut_short = true }
stop_notify (some e) c = record c {
  report = record c.report {
    notification_cleanup = some "stop_unconfirmed";
    failure_stage = or_default c.report.failure_stage "stop_notify";
  };
  stop_category = some (error_category e);
  failed = true;
}

abbrev pub disconnect_failed : Cleanup → Cleanup
disconnect_failed c = record c {
  report = record c.report {
    cleanup = some "disconnect_unconfirmed";
    failure_stage = or_default c.report.failure_stage "disconnect";
  };
  failed = true;
}

-- await asyncio.wait_for(client.disconnect(), 10), and the check after it
unfoldable pub disconnect : Option Failure → Bool → Cleanup → Cleanup
disconnect none still_connected c =
    if still_connected
    then disconnect_failed c
    else record c { report = record c.report { cleanup = some "disconnected_confirmed" } }
disconnect (some cancelled) still_connected c = record c { cut_short = true }
disconnect (some e) still_connected c = disconnect_failed c

-- for client in owners: ...; `subscribed` is `notify_attempted and char is not None`
unfoldable pub release_all : Bool → List Teardown → Cleanup → Cleanup
unfolding stop_notify disconnect
release_all subscribed [] c = c
release_all subscribed (t ∷ rest) c =
    unless_cut (if subscribed then stop_notify t.stop c else c)
      λ c1. unless_cut (disconnect t.disconnect t.still_connected c1) (release_all subscribed rest)

-- A confirmed disconnect releases a subscription whose stop was not confirmed.
unfoldable pub released : Cleanup → Cleanup
released c =
    if is_text c.report.notification_cleanup "stop_unconfirmed"
      && is_text c.report.cleanup "disconnected_confirmed"
    then record c {
      report =
          (let r = record c.report { notification_cleanup = some "released_by_disconnect" } in
            if is_text r.status "query_complete"
            then record r {
              status = some "failed";
              error_code = some "notification_cleanup_unconfirmed";
              failure_stage = some "stop_notify";
              error_category = or_default c.stop_category "transport";
            }
            else r);
      failed = false;
    }
    else c

-- the end of the `finally` block
unfoldable pub conclude : Cleanup → Cleanup
unfolding released
conclude c =
    let r = released c in
    if r.failed
    then record r { report = record r.report { status = some "cleanup_requires_review" } }
    else r

-- the `finally` block
unfoldable pub clean_up : Bool → List Teardown → Report → Cleanup
unfolding release_all conclude
clean_up subscribed owners r =
    unless_cut
      (release_all subscribed owners
        (record { report = r; stop_category = none; failed = false; cut_short = false }))
      conclude
