-- ===== src/Pinned/Proxy.antt =====
-- proxy_trace.py: the selection of the one idle route over an ESPHome proxy, the guards, and the query
-- with the proxy's log on a connection of its own (Trace). The backend that the inherited helper makes
-- is the parameter `backend_of`. Of the log's capture only its limit is read here.
use ha_aiper_ble.Prelude.{
  ℕ, String, Bool, false, not, ◌&&◌, ◌||◌, Option, none, some, [], ◌∷◌, ◌==◌, if◌then◌else◌, str_eq,
}
use ha_aiper_ble.Prelude.Int.{leb_ℤ}
use ha_aiper_ble.Prelude.Text.{Text, text_eq}
use ha_aiper_ble.Outcome.{Result, ok, err, protocol}
use ha_aiper_ble.Target.{Target}
use ha_aiper_ble.Bluez.Objects.{upper}
use ha_aiper_ble.Transport.Session.{Failure, unexpected}
use ha_aiper_ble.Transport.Session
use ha_aiper_ble.Pinned.Routes.{
  Slots, Peer, KnownRoute, Manager, Backend, is_at, is_filled, is_recent, has_free, routes_at,
  single_route, is_robot, is_registered,
}

-- runtime.device_info
pub record Info : Type 0 where
  pub mac_address : Text
  pub bluetooth_mac : Option Text
  pub version : String

-- a config entry and its runtime data
pub record Entry : Type 0 where
  pub identity : ℕ
  pub runtime : ℕ
  pub is_esphome : Bool
  pub available : Bool
  pub bluetooth_device : Option Text  -- its mac_address
  pub info : Option Info
  pub is_connected : Bool

-- SUPPORTED_FIRMWARE
unfoldable pub is_supported_firmware : String → Bool
is_supported_firmware v = str_eq v "2026.9.0" || str_eq v "2026.5.3" || str_eq v "2026.5.1"

-- bluetooth_mac_address or mac_address
unfoldable pub source_of : Info → Text
source_of info = elim info.bluetooth_mac [
  | none ↦ info.mac_address
  | some [] ↦ info.mac_address
  | some (c ∷ s) ↦ c ∷ s
]

-- an entry that is loaded and connected, with its identity and its source
pub record Resolved : Type 0 where
  pub entry : Entry
  pub info : Info
  pub source : Text

-- `resolve_proxy`
unfoldable pub resolve_proxy : Option Entry → Result Resolved
unfolding source_of text_eq is_supported_firmware
resolve_proxy none = err (protocol "proxy_entry_unavailable")
resolve_proxy (some e) = elim e.bluetooth_device [
  | none ↦ err (protocol "proxy_entry_unavailable")
  | some mac ↦ elim e.info [
    | none ↦ err (protocol "proxy_entry_unavailable")
    | some info ↦
        if not (e.is_esphome && e.available && e.is_connected)
        then err (protocol "proxy_entry_unavailable")
        else if not (is_filled (some (source_of info)))
            || not (text_eq mac (source_of info))
            || not (is_supported_firmware info.version)
        then err (protocol "proxy_firmware_or_identity_unsupported")
        else ok (record { entry = e; info = info; source = source_of info })
  ]
]

-- slots.free == slots.slots, and nothing is allocated
unfoldable pub is_idle : Option Slots → Bool
is_idle none = false
is_idle (some s) = leb_ℤ s.free s.total && leb_ℤ s.total s.free && s.allocated == 0

-- the checks of the one route
unfoldable pub route_refusal : Target → Text → Manager → KnownRoute → Option String
unfolding is_robot is_recent has_free is_idle text_eq
route_refusal t source m r =
    if not (is_robot t r)
      || not (elim r.device.details [ none ↦ false | some d ↦ is_at d.source source ])
      || not r.scanner.connectable
      || not r.scanner.has_connector
      || not (is_registered m source r.scanner)
    then some "proxy_trace_route_mismatch"
    else if not (is_recent m.now r.scanner.timestamp)
    then some "proxy_trace_advertisement_stale"
    else if not (has_free r.scanner.slots) || not (is_idle r.scanner.slots) || r.scanner.in_progress
    then some "proxy_trace_not_idle"
    else none

-- `select_route`
unfoldable pub select_route : Target → Text → Manager → Result KnownRoute
unfolding routes_at single_route route_refusal
select_route t source m = elim (single_route "proxy_trace_route_unavailable" (routes_at source m)) [
  | err e ↦ err e
  | ok r ↦ elim (route_refusal t source m r) [ some code ↦ err (protocol code) | none ↦ ok r ]
]

-- the backend is the one of the route over the source
unfoldable pub is_proxy_backend : Text → KnownRoute → Option Backend → Bool
unfolding text_eq
is_proxy_backend source r none = false
is_proxy_backend source r (some b) =
    is_at b.source source && b.scanner == r.scanner.identity && b.device == r.device.identity

-- `_async_get_best_available_backend_and_device` of the pinned client
unfoldable pub select_proxy :
    (KnownRoute → Option Backend) → Target → Text → Manager → Result (Option Backend)
unfolding select_route is_proxy_backend
select_proxy backend_of t source m = elim (select_route t source m) [
  | err e ↦ err e
  | ok r ↦
      if is_proxy_backend source r (backend_of r)
      then ok (backend_of r)
      else err (protocol "proxy_trace_backend_mismatch")
]

-- the client's backend (the source of an ESPHomeClient, or none), scanner and device
pub record Client : Type 0 where
  pub esphome_source : Option Text
  pub scanner_source : Option Text
  pub device : Option Peer

-- `assert_proxy_backend`, as what it raises; details that are no dict have no `get`
unfoldable pub assert_proxy_backend : Client → Target → Text → Option Failure
unfolding upper text_eq
assert_proxy_backend c t source =
    let mismatch : Option Failure = some (Session.protocol "proxy_trace_backend_mismatch") in
    elim c.device [
      | none ↦ mismatch
      | some device ↦
          if is_at c.esphome_source source
            && is_at c.scanner_source source
            && text_eq (upper device.address) t.address
          then elim device.details [
            | none ↦ some unexpected
            | some d ↦ if is_at d.source source then none else mismatch
          ]
          else mismatch
    ]

-- what `guard` reads: the log's connection, the entry, and whether the capture has reached a limit
pub record Moment : Type 0 where
  pub log_connected : Bool
  pub entry : Option Entry
  pub limit_reached : Bool

-- `guard`, as the exception that it raises
unfoldable pub guard : Resolved → Moment → Option Failure
unfolding resolve_proxy text_eq Session.failure_of
guard first now = elim (resolve_proxy now.entry) [
  | err e ↦ some (Session.failure_of e)
  | ok current ↦
      if not now.log_connected
        || not (current.entry.identity == first.entry.identity)
        || not (current.entry.runtime == first.entry.runtime)
        || not (text_eq current.source first.source)
      then some (Session.protocol "proxy_trace_session_changed")
      else if now.limit_reached
      then some (Session.protocol "proxy_trace_capture_limit")
      else none
]
