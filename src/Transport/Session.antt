-- ===== src/Transport/Session.antt =====
-- One session of `query_once` (bluetooth_transport.py): what it meets, its local variables, and the
-- writes. What Home Assistant, Bleak and the robot do is the parameter `Link`.
use ha_aiper_ble.Prelude.{
  ℕ, ◌+◌, String, Bool, Option, none, some, List, [], ◌∷◌, ◌++◌, if◌then◌else◌,
}
use ha_aiper_ble.Prelude.Text.{Bytes}
use ha_aiper_ble.Outcome.{Exception, Result, ok, err}
use ha_aiper_ble.Outcome
use ha_aiper_ble.Protocol.Query.{Request, query, control}
use ha_aiper_ble.Protocol.Decoder.{Decoder, Received}
use ha_aiper_ble.Coordinator.Report.{Diagnostics, Report}
use ha_aiper_ble.Transport.Inbox.{Inbox, put_all}
use ha_aiper_ble.Transport.Routes.{Routes, Characteristic, Service}

-- the exceptions of a session, by what `error_category` tells apart
pub data Failure : Type 0 where
  protocol : String → Failure
  cancelled timeout bleak connection os unexpected : Failure

-- error_category
unfoldable pub error_category : Failure → String
error_category timeout = "timeout"
error_category bleak = "bleak"
error_category connection = "connection"
error_category os = "os"
error_category _ = "unexpected"

-- an exception of the codec: but for ProtocolError, a ValueError or the like
unfoldable pub failure_of : Exception → Failure
failure_of (Outcome.protocol code) = protocol code
failure_of Outcome.timeout = timeout
failure_of Outcome.cancelled = cancelled
failure_of (Outcome.update_failed code) = unexpected
failure_of Outcome.other = unexpected

unfoldable pub refusal_of : Option String → Option Failure
refusal_of none = none
refusal_of (some code) = some (protocol code)

abbrev pub write_mode_of : Request → String
write_mode_of (query q) = q.write_mode
write_mode_of (control c) = c.write_mode

abbrev pub allows_missing : Request → Bool
allows_missing (query q) = q.allow_missing_advertisement
allows_missing (control c) = c.allow_missing_advertisement

-- one awaited write: how it ends, and the notifications that arrive meanwhile
pub record Written : Type 0 where
  pub raised : Option Failure
  pub arrived : List Received

-- one wait for a notification: some arrive, or the wait is ended
pub data Wait : Type 0 where
  arrive : List Received → Wait
  interrupt : Failure → Wait

-- How a retained client is left: what stop_notify and disconnect raise, and is_connected afterwards.
pub record Teardown : Type 0 where
  pub stop : Option Failure
  pub disconnect : Option Failure
  pub still_connected : Bool

-- What one session meets. A guard is what the assertions of a pinned adapter or proxy raise, where
-- one is asked for. After the last of `waits` nothing more arrives, and the deadline passes.
pub record Link : Type 0 where
  pub routes_before : Routes
  pub guard_before : Option Failure
  pub established : Option Failure
  pub routes_connected : Routes
  pub guard_connected : Option Failure
  pub services_connected : List Service
  pub started : Option Failure
  pub routes_notifying : Routes
  pub guard_notifying : Option Failure
  pub services_notifying : List Service
  pub is_connected : Bool
  pub writes : ℕ → Written
  pub waits : List Wait
  pub owners : List Teardown
  pub diagnostics : Diagnostics

-- The local variables; `written` is what was handed to write_gatt_char, in order.
pub record Session : Type 0 where
  pub report : Report
  pub char : Option Characteristic
  pub notify_attempted : Bool
  pub inbox : Inbox
  pub decoder : Decoder
  pub written : List Bytes

-- how a part of the try block ends: with an exception, or not
abbrev pub Run : Type 0
Run = Option Failure × Session

abbrev pub guard : Option Failure → Session → (Session → Run) → Run
guard (some e) s next = (some e, s)
guard none s next = next s

unfoldable pub phase : String → Session → Session
phase name s = record s { report = record s.report { phase = some name } }

-- report["write_attempts"] += 1, and the chunk that is about to be sent
unfoldable pub count_write : Bytes → Session → Session
count_write chunk s = record s {
  report = record s.report {
    write_attempts = some (elim s.report.write_attempts [ none ↦ 1 | some n ↦ n + 1 ]);
  };
  written = s.written ++ chunk ∷ [];
}

unfoldable pub arrivals : List Received → Session → Session
unfolding put_all
arrivals values s = record s { inbox = put_all values s.inbox }

-- for chunk in chunks(...): ..., from the index i on
unfoldable pub write_all : Link → ℕ → List Bytes → Session → Run
unfolding count_write arrivals
write_all link i [] s = (none, s)
write_all link i (chunk ∷ rest) s =
    if s.inbox.overflow
    then (some (protocol "notification_queue_overflow"), s)
    else guard (link.writes i).raised (arrivals (link.writes i).arrived (count_write chunk s))
        (λ s'. write_all link (i + 1) rest s')
