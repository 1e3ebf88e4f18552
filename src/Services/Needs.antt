-- ===== src/Services/Needs.antt =====
-- What each service asks its caller to confirm, and the refusals of `handle` in __init__.py.
use ha_aiper_ble.Prelude.{
  String, ◌≡◌, refl, ◌≢◌, Bool, true, false, ◌&&◌, Option, none, some, arith, if◌then◌else◌,
}
use ha_aiper_ble.Services.{
  Service, start_cleaning, stop_cleaning, query_s1_info, query_opinfo, query_info, query_warn,
  query_opinfo_local_bleak, query_opinfo_proxy_trace, query_exploratory, poll_now, query_once,
  listen_once, read_once, discover, Call, Confirmation, app_closed, safe_to_move, query_write,
  notifications, proxy_logging, read_only, Runtime, Answer, invalid, raised, Served,
}
use ha_aiper_ble.Services.Serve.{
  World, refuse, control_refusal, query_refusal, poll_refusal, unless_refused,
}

-- the services that ask the robot one query outside the schedule
abbrev pub asks : Service → Bool
asks query_s1_info = true
asks query_opinfo = true
asks query_info = true
asks query_warn = true
asks query_opinfo_local_bleak = true
asks query_opinfo_proxy_trace = true
asks query_exploratory = true
asks _ = false

abbrev pub is_query : Confirmation → Bool
is_query app_closed = true
is_query query_write = true
is_query notifications = true
is_query _ = false

-- the confirmations, service by service
unfoldable pub needs : Service → Confirmation → Bool
needs start_cleaning app_closed = true
needs start_cleaning safe_to_move = true
needs stop_cleaning app_closed = true
needs stop_cleaning safe_to_move = true
needs query_opinfo_proxy_trace proxy_logging = true
needs poll_now app_closed = true
needs query_once app_closed = true
needs query_once query_write = true
needs query_once notifications = true
needs listen_once app_closed = true
needs listen_once notifications = true
needs read_once app_closed = true
needs read_once read_only = true
needs discover app_closed = true
needs service k = asks service && is_query k

abbrev pub IsRefusal : Answer → Type 0
IsRefusal (invalid key) = Unit
IsRefusal (raised e) = Unit
IsRefusal _ = ⊥

-- The call is refused, the state is as before, and nothing that the world does has a part in it.
abbrev pub Refuses : (World → Served) → Runtime → Type 0
Refuses f rt = (a : Answer) × IsRefusal a × ((w : World) → f w ≡ refuse a rt)

pub Refuses-refuse : (a : Answer) (rt : Runtime) → IsRefusal a → Refuses (λ w. refuse a rt) rt
Refuses-refuse a rt h = (a, h, λ w. refl)

pub Refuses-if :
    (b : Bool) (f g : World → Served) (rt : Runtime)
    → Refuses f rt
    → Refuses g rt
    → Refuses (λ w. if b then f w else g w) rt
Refuses-if true f g rt yes_f no_g = yes_f
Refuses-if false f g rt yes_f no_g = no_g

pub Refuses-unless_refused :
    (o : Option String) (f : World → Served) (rt : Runtime)
    → o ≢ none
    → Refuses (λ w. unless_refused o rt (f w)) rt
Refuses-unless_refused none f rt h = absurd (h refl)
Refuses-unless_refused (some key) f rt h = (invalid key, tt, λ w. refl)

pub control_refusal-ne-none :
    (call : Call) (rt : Runtime)
    → call.confirmed app_closed && call.confirmed safe_to_move ≡ false
    → control_refusal call rt ≢ none
unfolding control_refusal
control_refusal-ne-none call rt h = ground arith

pub poll_refusal-ne-none :
    (call : Call) (rt : Runtime) → call.confirmed app_closed ≡ false → poll_refusal call rt ≢ none
unfolding poll_refusal
poll_refusal-ne-none call rt h = ground arith

pub query_refusal-ne-none :
    (call : Call) (rt : Runtime) (k : Confirmation)
    → is_query k ≡ true
    → call.confirmed k ≡ false
    → query_refusal call rt ≢ none
unfolding query_refusal
query_refusal-ne-none call rt k q h = ground arith

abbrev pub of : Service → Call → Call
of service call = record call { service = service }
