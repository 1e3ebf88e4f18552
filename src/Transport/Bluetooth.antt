-- ===== src/Transport/Bluetooth.antt =====
-- `query_once` of bluetooth_transport.py: connect, send one request, wait for its answer, stop the
-- notifications and disconnect.
pub mod Ends
use ha_aiper_ble.Prelude.{Bool, true, false, ◌&&◌, ◌||◌, Option, none, some, List, []}
use ha_aiper_ble.Prelude.Text.{Bytes}
use ha_aiper_ble.Value.{Value}
use ha_aiper_ble.Target.{Target}
use ha_aiper_ble.Protocol.Query.{Request}
use ha_aiper_ble.Protocol.Decoder.{new_decoder}
use ha_aiper_ble.Protocol.Reply.{Floats}
use ha_aiper_ble.Coordinator.Report.{Diagnostics, Report}
use ha_aiper_ble.Transport.Inbox.{empty_inbox}
use ha_aiper_ble.Transport.Routes.{Characteristic}
use ha_aiper_ble.Transport.Session.{Failure, protocol, cancelled, error_category, Link, Session}
use ha_aiper_ble.Transport.Exchange.{attempt}
use ha_aiper_ble.Transport.Release.{clean_up}

-- the handlers
unfoldable pub handle : Failure → Report → Report
unfolding error_category
handle (protocol code) r = record r {
  status = some "failed";
  error_code = some code;
  failure_stage = r.phase;
  error_category = some "protocol";
}
handle cancelled r = record r {
  status = some "interrupted";
  failure_stage = r.phase;
  error_category = some "cancelled";
}
handle e r = record r {
  status = some "failed";
  error_code = some "bluetooth_transport_error";
  failure_stage = r.phase;
  error_category = some (error_category e);
}

abbrev pub handled : Option Failure → Report → Report
handled none r = r
handled (some e) r = handle e r

abbrev pub is_cancelled : Option Failure → Bool
is_cancelled (some cancelled) = true
is_cancelled _ = false

abbrev pub has_char : Option Characteristic → Bool
has_char none = false
has_char (some c) = true

-- the report and the local variables at the start
unfoldable pub start : Diagnostics → Report → Session
start diagnostics r = record {
  report = record r {
    status = some "running";
    write_attempts = some 0;
    phase = some "route_validation";
    diagnostics = some diagnostics;
  };
  char = none;
  notify_attempted = false;
  inbox = empty_inbox;
  decoder = new_decoder;
  written = [];
}

-- How the whole call ends: the report, whether it raises CancelledError, and what it has sent.
pub record Ended : Type 0 where
  pub report : Report
  pub interrupted : Bool
  pub written : List Bytes

unfoldable pub query_once :
    Floats → (Bytes → Option Value) → Target → Request → Link → Report → Ended
unfolding attempt start clean_up handle
query_once floats loads target request link r =
    let (failure, s) = attempt floats loads request target link (start link.diagnostics r) in
    let c =
      clean_up (s.notify_attempted && has_char s.char) link.owners (handled failure s.report) in
    record {
      report = c.report;
      interrupted = is_cancelled failure || c.cut_short;
      written = s.written;
    }
