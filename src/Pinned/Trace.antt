-- ===== src/Pinned/Trace.antt =====
-- `query_once` of proxy_trace.py: one query over a pinned proxy, with its log on a connection of its
-- own, which is closed in the end. What the proxy, Home Assistant and the robot do is the parameter
-- `ProxyWorld`.
pub mod Runs
pub mod Safe
pub mod Ends
use ha_aiper_ble.Prelude.{
  ℕ, Bool, true, false, not, ◌&&◌, Option, none, some, List, [], ◌==◌, if◌then◌else◌, str_eq,
}
use ha_aiper_ble.Prelude.Text.{Bytes, text_eq}
use ha_aiper_ble.Value.{Value}
use ha_aiper_ble.Outcome.{Result, ok, err}
use ha_aiper_ble.Target.{Target}
use ha_aiper_ble.Protocol.Query.{Request}
use ha_aiper_ble.Protocol.Reply.{Floats}
use ha_aiper_ble.Coordinator.Report.{Report}
use ha_aiper_ble.Transport.Session.{Failure, cancelled, protocol, failure_of, Link}
use ha_aiper_ble.Transport.Bluetooth.{Ended, query_once}
use ha_aiper_ble.Pinned.Routes.{Slots, KnownRoute, Manager}
use ha_aiper_ble.Pinned.Proxy.{
  Info, Entry, source_of, Resolved, resolve_proxy, is_idle, select_route, Client,
  assert_proxy_backend, Moment, guard,
}

-- the scanner and the proxy afterwards; `slots` and `in_progress` are None if reading them raises
pub record Aftermath : Type 0 where
  pub slots : Option Slots
  pub in_progress : Option ℕ
  pub available : Bool
  pub is_connected : Bool

pub record ProxyWorld : Type 0 where
  pub versions : Option Failure  -- what reading the versions raises
  pub supported : Bool  -- they are the supported ones
  pub entry : Option Entry
  pub manager : Manager
  pub has_address : Bool  -- the address of the connection is one of IP
  pub log_opened : Option Failure  -- what connect and device_info raise, the deadline included
  pub observed : Info  -- device_info of the log's connection
  pub subscribed : Option Failure
  pub ordered : Option Failure  -- the second device_info
  pub before_query : Moment
  pub before_connect : Moment
  pub connected : Moment × Client
  pub notifying : Moment × Client
  pub link : Link
  pub connects : Bool  -- the client has called connect
  pub slept : Option Failure
  pub log_connected : Bool  -- of the log's client, at the end
  pub disabled : Option Failure  -- what the subscription with no level raises
  pub log_closed : Option Failure  -- what the disconnect raises, the deadline included
  pub still_connected : Bool  -- and of its client, afterwards
  pub aftermath : Aftermath

-- what the try block comes to: what it raises, the report, what was sent to the robot, and
-- `subscription_attempted`
pub record Traced : Type 0 where
  pub raised : Option Failure
  pub report : Report
  pub written : List Bytes
  pub attempted : Bool

abbrev pub unless_raised : Option Failure → Traced → (Traced → Traced) → Traced
unless_raised (some e) x next = record x { raised = some e }
unless_raised none x next = next x

abbrev first_of : Option Failure → Option Failure → Option Failure
first_of none b = b
first_of (some e) b = some e

-- `proxy_guard` and `assert_proxy_backend`, at one time
abbrev pub guard_backend : Target → Resolved → Moment × Client → Option Failure
guard_backend t p (now, client) = first_of (guard p now) (assert_proxy_backend client t p.source)

-- the exchange with its checks of a pinned proxy
unfoldable pub proxy_link : Target → Resolved → ProxyWorld → Link
unfolding guard assert_proxy_backend
proxy_link t p w = record w.link {
  guard_before = guard p w.before_connect;
  guard_connected = guard_backend t p w.connected;
  guard_notifying = guard_backend t p w.notifying;
}

-- the log's connection is to the same proxy
unfoldable pub is_same_proxy : Resolved → Info → Bool
unfolding text_eq source_of
is_same_proxy p observed =
    text_eq observed.mac_address p.info.mac_address
    && text_eq (source_of observed) p.source
    && str_eq observed.version p.info.version

abbrev interrupted_of : Bool → Option Failure
interrupted_of b = if b then some cancelled else none

module _ (floats : Floats) (loads : Bytes → Option Value) (t : Target) (request : Request) where
  -- the managed query, and the wait after it
  unfoldable pub managed : Resolved → ProxyWorld → Traced → Traced
  unfolding query_once proxy_link
  managed p w x =
      let ended = query_once floats loads t request (proxy_link t p w) x.report in
      unless_raised (interrupted_of ended.interrupted)
        (record x { report = ended.report; written = ended.written })
        λ x1. record x1 { raised = w.slept }

  unfoldable pub with_log : Resolved → ProxyWorld → Traced → Traced
  unfolding guard managed
  with_log p w x =
      unless_raised w.subscribed (record x { attempted = true })
        λ x1.
          unless_raised w.ordered
            (record x1 { report = record x1.report { log_cleanup = some "pending" } })
            λ x2. unless_raised (guard p w.before_query) x2 (managed p w)

  -- the try block
  unfoldable pub trace_body : Resolved → ProxyWorld → Traced → Traced
  unfolding is_same_proxy with_log
  trace_body p w x = unless_raised w.log_opened x λ x1.
      if is_same_proxy p w.observed
      then with_log p w x1
      else record x1 { raised = some (protocol "proxy_trace_log_identity_mismatch") }

abbrev pub require_review : Report → Report
require_review r = record r {
  status = some "cleanup_requires_review";
  error_code = some "cleanup_requires_review";
}

-- the log's connection is closed; `none` if a cancellation cuts the rest short
unfoldable pub close_log : Option Failure → Bool → Report → Option Report
close_log (some cancelled) still r = none
close_log (some e) still r = some (require_review (record r { log_cleanup = some "unconfirmed" }))
close_log none still r =
    if still
    then some (require_review (record r { log_cleanup = some "unconfirmed" }))
    else some (record r { log_cleanup = some "dedicated_connection_closed" })

abbrev pub is_zero : Option ℕ → Bool
is_zero none = false
is_zero (some n) = n == 0

-- the proxy is there, and all of its slots are free
unfoldable pub is_quiet : Aftermath → Bool
unfolding is_idle
is_quiet a = a.available && a.is_connected && is_idle a.slots && is_zero a.in_progress

unfoldable pub check_slots : Bool → Aftermath → Report → Report
unfolding is_quiet
check_slots connects a r = if connects && not (is_quiet a) then require_review r else r

-- How the whole call ends; `log_disable_sent` is absent before the log's connection is tried.
pub record ProxyEnd : Type 0 where
  pub raised : Option Failure
  pub report : Report
  pub written : List Bytes
  pub log_disable_sent : Option Bool

abbrev is_none : Option Failure → Bool
is_none none = true
is_none (some e) = false

-- the `finally` block
unfoldable pub end_trace : ProxyWorld → Traced → ProxyEnd
unfolding close_log check_slots
end_trace w x =
    let sent = some (x.attempted && w.log_connected && is_none w.disabled) in
    elim (close_log w.log_closed w.still_connected x.report) [
      | none ↦ record {
        raised = some cancelled;
        report = x.report;
        written = x.written;
        log_disable_sent = sent;
      }
      | some r ↦ record {
        raised = x.raised;
        report = check_slots w.connects w.aftermath r;
        written = x.written;
        log_disable_sent = sent;
      }
    ]

abbrev pub untouched : Failure → Report → ProxyEnd
untouched e r = record { raised = some e; report = r; written = []; log_disable_sent = none }

abbrev pub unless_err {ℓ} : {A : Type ℓ} → Result A → Report → (A → ProxyEnd) → ProxyEnd
unless_err (err e) r next = untouched (failure_of e) r
unless_err (ok a) r next = next a

-- before the try block
abbrev pub begun : Report → Traced
begun r = record {
  raised = none;
  report = record r { log_cleanup = some "not_started" };
  written = [];
  attempted = false;
}

-- `query_once`
unfoldable pub proxy_query :
    Floats → (Bytes → Option Value) → Target → Request → ProxyWorld → Report → ProxyEnd
unfolding resolve_proxy select_route trace_body end_trace failure_of
proxy_query floats loads t request w r = elim w.versions [
  | some e ↦ untouched e r
  | none ↦
      if not w.supported
      then untouched (protocol "proxy_trace_versions_unsupported") r
      else unless_err (resolve_proxy w.entry) r λ p.
        unless_err (select_route t p.source w.manager) r λ route.
          if not w.has_address
          then untouched (protocol "proxy_trace_address_unavailable") r
          else end_trace w (trace_body floats loads t request p w (begun r))
]
