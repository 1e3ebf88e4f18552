-- ===== src/Pinned/Local.antt =====
-- local_bleak.py: the selection of the one route over the saved adapter, the check of the connected
-- backend, and the query that BlueZ must confirm to have ended. The backend that the inherited helper
-- makes is the parameter `backend_of`.
pub mod Ends
pub mod Slots
use ha_aiper_ble.Prelude.{
  ℕ, String, Bool, true, false, not, ◌&&◌, ◌||◌, Option, none, some, List, [], ◌∷◌, ◌==◌,
  if◌then◌else◌,
}
use ha_aiper_ble.Prelude.Text.{Text, Bytes, text_eq}
use ha_aiper_ble.Value.{Value}
use ha_aiper_ble.Outcome.{Result, ok, err, protocol}
use ha_aiper_ble.Target.{Target, device_path}
use ha_aiper_ble.Protocol.Query.{Request}
use ha_aiper_ble.Protocol.Reply.{Floats}
use ha_aiper_ble.Coordinator.Report.{Report, or_default}
use ha_aiper_ble.Bluez.Objects.{Device, upper, is_false}
use ha_aiper_ble.Transport.Session.{Failure, Link, refusal_of}
use ha_aiper_ble.Transport.Bluetooth.{query_once}
use ha_aiper_ble.Pinned.Routes.{
  Radio, Details, Peer, KnownRoute, Manager, Backend, is_at, is_filled, is_recent, has_free,
  routes_at, single_route, is_robot, is_registered,
}

-- assert_local_backend: the client's backend, scanner and device
pub record Client : Type 0 where
  pub is_bluez : Bool
  pub scanner_source : Option Text
  pub device : Option Peer

-- details.get("source") or details.get("path") != target.device_path, or no dict
unfoldable pub is_on_path : Target → Option Details → Bool
unfolding device_path text_eq
is_on_path t none = false
is_on_path t (some d) = elim (device_path t) [
  | none ↦ false
  | some path ↦ is_at d.path path && not (is_filled d.source)
]

-- `assert_local_backend`, as the code of its ProtocolError; a target with no adapter has been refused
-- before
unfoldable pub assert_local_backend : Client → Target → Option String
unfolding upper is_on_path text_eq
assert_local_backend c t =
    let mismatch : Option String = some "local_bleak_route_mismatch" in
    elim t.adapter_address [
      | none ↦ mismatch
      | some adapter ↦ elim c.device [
        | none ↦ mismatch
        | some device ↦
            if c.is_bluez
              && is_at c.scanner_source adapter
              && text_eq (upper device.address) t.address
              && is_on_path t device.details
            then none
            else mismatch
      ]
    ]

-- details["props"]["Adapter"] is the target's, and none of the flags holds
unfoldable pub is_on_adapter : Text → Option Details → Bool
unfolding text_eq
is_on_adapter path none = false
is_on_adapter path (some d) = is_at d.adapter path

abbrev pub is_used : Option Details → Bool
is_used none = false
is_used (some d) = d.is_used

-- the checks of the one route, before a slot is taken
unfoldable pub local_refusal : Target → Text → Text → Manager → KnownRoute → Option String
unfolding is_robot is_on_path is_on_adapter is_recent has_free
local_refusal t path source m r =
    if not (is_robot t r)
      || not (is_on_path t r.device.details)
      || not (is_on_adapter path r.device.details)
      || r.scanner.has_connector
      || not r.scanner.connectable
      || not (is_registered m source r.scanner)
    then some "local_bleak_route_mismatch"
    else if is_used r.device.details
    then some "local_bleak_endpoint_busy_or_secured"
    else if not (is_recent m.now r.scanner.timestamp)
    then some "local_bleak_advertisement_stale"
    else if not (has_free r.scanner.slots) || r.scanner.in_progress
    then some "local_bleak_slot_unavailable"
    else none

-- What a selection comes to: the backend or the error, and the devices whose slots it has given back.
pub record Selected : Type 0 where
  pub backend : Result Backend
  pub given_back : List ℕ

abbrev pub refused : String → Selected
refused code = record { backend = err (protocol code); given_back = [] }

-- the backend is the one of the route
unfoldable pub is_local_backend : KnownRoute → Backend → Bool
is_local_backend r b =
    not (is_filled b.source)
    && b.scanner == r.scanner.identity
    && b.device == r.device.identity
    && b.is_bluez

module _ (backend_of : KnownRoute → Option Backend) where
  unfoldable pub take_backend : KnownRoute → Selected
  unfolding is_local_backend
  take_backend r = elim (backend_of r) [
    | none ↦ refused "local_bleak_slot_unavailable"
    | some b ↦ if is_local_backend r b then record { backend = ok b; given_back = [] } else record {
      backend = err (protocol "local_bleak_route_mismatch");
      given_back = r.device.identity ∷ [];
    }
  ]

  -- `_async_get_best_available_backend_and_device`, for a target with an adapter
  unfoldable pub select_local : Target → Text → Text → Manager → Selected
  unfolding routes_at single_route local_refusal take_backend
  select_local t path source m =
      elim (single_route "local_bleak_route_unavailable" (routes_at source m)) [
        | err e ↦ record { backend = err e; given_back = [] }
        | ok r ↦ elim (local_refusal t path source m r) [
          | some code ↦ refused code
          | none ↦ take_backend r
        ]
      ]

-- what BlueZ says of the device afterwards: its properties, an exception, the deadline included, or
-- a cancellation
pub data Looked : Type 0 where
  seen : Device → Looked
  unseen : Looked
  cut_short : Looked

-- o == path, of a target that has an adapter path
abbrev pub is_adapter : Option Text → Option Text → Bool
is_adapter none o = false
is_adapter (some path) o = is_at o path

-- Connected, Address and Adapter are as they must be once the robot is gone
unfoldable pub is_gone : Target → Device → Bool
unfolding text_eq
is_gone t d =
    is_false d.connected && is_at d.address t.address && is_adapter t.adapter_path d.adapter

-- the report before and after, and what `independent_local_cleanup` says, if anything
pub record LocalEnd : Type 0 where
  pub report : Report
  pub independent : Option String
  pub interrupted : Bool

-- the report while BlueZ is asked
unfoldable pub doubt : Report → Report
doubt r = record r {
  status = some "cleanup_requires_review";
  cleanup = some "disconnect_unconfirmed";
}

-- the handler of the exceptions
unfoldable pub unconfirmed_local : Report → LocalEnd
unfolding doubt
unconfirmed_local r = record {
  report = record (doubt r) {
    failure_stage = or_default r.failure_stage "independent_local_cleanup";
  };
  independent = some "unconfirmed";
  interrupted = false;
}

-- the `finally` block, of a report whose client has called connect
unfoldable pub confirm_gone : Target → Looked → Report → LocalEnd
unfolding doubt unconfirmed_local is_gone
confirm_gone t cut_short r = record {
  report = doubt r;
  independent = some "unconfirmed";
  interrupted = true;
}
confirm_gone t unseen r = unconfirmed_local r
confirm_gone t (seen d) r =
    if is_gone t d
    then record { report = r; independent = some "disconnected_confirmed"; interrupted = false }
    else unconfirmed_local r

-- What a pinned query meets: the exchange, what reading the versions raises, the connected backend at
-- the two checks, whether the client has called connect, and BlueZ afterwards.
pub record LocalWorld : Type 0 where
  pub link : Link
  pub versions : Option Failure
  pub supported : Bool  -- the versions and the base class are those that are supported
  pub connected : Client
  pub notifying : Client
  pub connects : Bool
  pub looked : Looked

-- `pinned_client_class`, as the code of its ProtocolError
unfoldable pub class_refusal : Target → Bool → Option String
class_refusal t supported = elim t.adapter_path [
  | none ↦ some "local_adapter_required"
  | some path ↦ elim t.adapter_address [
    | none ↦ some "local_adapter_required"
    | some address ↦ if supported then none else some "local_bleak_wrapper_unsupported"
  ]
]

-- the exchange with its checks of a pinned adapter
unfoldable pub local_link : Target → LocalWorld → Link
unfolding class_refusal refusal_of assert_local_backend
local_link t w = record w.link {
  guard_before = elim w.versions [
    | some e ↦ some e
    | none ↦ refusal_of (class_refusal t w.supported)
  ];
  guard_connected = refusal_of (assert_local_backend w.connected t);
  guard_notifying = refusal_of (assert_local_backend w.notifying t);
}

-- `query_once`
unfoldable pub local_query :
    Floats → (Bytes → Option Value) → Target → Request → LocalWorld → Report → LocalEnd
unfolding query_once local_link confirm_gone
local_query floats loads t request w r =
    let x = query_once floats loads t request (local_link t w) r in
    if w.connects
    then (let c = confirm_gone t w.looked x.report in
        record c { interrupted = x.interrupted || c.interrupted })
    else record { report = x.report; independent = none; interrupted = x.interrupted }
