-- ===== src/Pinned/Routes.antt =====
-- What Home Assistant's Bluetooth manager knows of the routes to the robot, as local_bleak.py and
-- proxy_trace.py read it, and what their two selections share. Times are in milliseconds. What is
-- compared with `is` is an identity, a number.
use ha_aiper_ble.Prelude.{
  ℕ, ◌+◌, String, Bool, true, false, ◌&&◌, Option, none, some, List, [], ◌∷◌, leb, ◌==◌,
  if◌then◌else◌,
}
use ha_aiper_ble.Prelude.Int.{ℤ, pos, leb_ℤ}
use ha_aiper_ble.Prelude.Text.{Text, text_eq}
use ha_aiper_ble.Outcome.{Result, ok, err, protocol}
use ha_aiper_ble.Target.{Target, matches_name}
use ha_aiper_ble.Bluez.Objects.{upper}
use ha_aiper_ble.Transport.Routes.{select}

-- scanner.get_allocations()
pub record Slots : Type 0 where
  pub free : ℤ
  pub total : ℤ
  pub allocated : ℕ  -- how many addresses it lists

-- a scanner; a connector is None or an object, which is true
pub record Radio : Type 0 where
  pub identity : ℕ
  pub source : Option Text
  pub has_connector : Bool
  pub connectable : Bool
  pub timestamp : Option ℕ  -- of the target's address, if it is an int or a float
  pub slots : Option Slots
  pub in_progress : Bool  -- connections_in_progress() is not 0

-- the details of a device that are a dict; an absent key is `none`
pub record Details : Type 0 where
  pub path : Option Text
  pub source : Option Text
  pub adapter : Option Text  -- details["props"]["Adapter"]
  pub is_used : Bool  -- one of Paired, Bonded, Trusted, Blocked and Connected holds

-- a device; no details: they are no dict
pub record Peer : Type 0 where
  pub identity : ℕ
  pub address : Text
  pub name : Option Text
  pub details : Option Details

pub record KnownRoute : Type 0 where
  pub scanner : Radio
  pub device : Peer
  pub local_name : Option Text

-- the manager: the connectable routes to the target's address, the scanner that is registered for a
-- source, and the coarse clock
pub record Manager : Type 0 where
  pub routes : List KnownRoute
  pub registered : Text → Option ℕ
  pub now : ℕ

-- a == b, of a str and of a str or None
abbrev pub is_at : Option Text → Text → Bool
is_at none b = false
is_at (some a) b = text_eq a b

-- whether an optional str is true
abbrev pub is_filled : Option Text → Bool
is_filled none = false
is_filled (some []) = false
is_filled (some (c ∷ s)) = true

-- advertisement.local_name or device.name
unfoldable pub shown_name : KnownRoute → Option Text
shown_name r = if is_filled r.local_name then r.local_name else r.device.name

abbrev pub is_identity : Option ℕ → ℕ → Bool
is_identity none b = false
is_identity (some a) b = a == b

abbrev pub max_age : ℕ
max_age = 10000

-- 0 <= now - timestamp <= 10 seconds, of a number
unfoldable pub is_recent : ℕ → Option ℕ → Bool
is_recent now none = false
is_recent now (some stamp) = leb stamp now && leb now (stamp + max_age)

-- allocations.free < 1, or there are none
unfoldable pub has_free : Option Slots → Bool
has_free none = false
has_free (some slots) = leb_ℤ (pos 1) slots.free

-- the routes over one source
unfoldable pub routes_at : Text → Manager → List KnownRoute
unfolding select
routes_at source m = select (λ r. is_at r.scanner.source source) m.routes

-- the one route over a source, or the error that there is not one
unfoldable pub single_route : String → List KnownRoute → Result KnownRoute
single_route code (r ∷ []) = ok r
single_route code _ = err (protocol code)

-- the address and the name of a route are the target's
unfoldable pub is_robot : Target → KnownRoute → Bool
unfolding upper text_eq matches_name shown_name
is_robot t r = text_eq (upper r.device.address) t.address && matches_name t (shown_name r)

-- manager.async_scanner_by_source(source) is scanner
abbrev pub is_registered : Manager → Text → Radio → Bool
is_registered m source scanner = is_identity (m.registered source) scanner.identity

-- the backend that the inherited helper makes for a route, if it makes one
pub record Backend : Type 0 where
  pub source : Option Text
  pub scanner : ℕ
  pub device : ℕ
  pub is_bluez : Bool  -- its client is BleakClientBlueZDBus
