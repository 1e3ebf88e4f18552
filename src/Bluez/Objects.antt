-- ===== src/Bluez/Objects.antt =====
-- What BlueZ's object manager returns, as far as probe.py and telemetry.py read it, and their lookups.
use ha_aiper_ble.Prelude.{
  ◌-◌, String, Bool, true, false, ◌&&◌, Option, none, some, List, [], ◌∷◌, ◌++◌, leb, ◌==◌,
  if◌then◌else◌,
}
use ha_aiper_ble.Prelude.Int.{ℤ, pos, negsuc, leb_ℤ}
use ha_aiper_ble.Prelude.Text.{Text, text_eq}
use ha_aiper_ble.Value.{Value, int}
use ha_aiper_ble.Target.{Target, device_path}
use ha_aiper_ble.Protocol.Hint.{ManufacturerData}

-- org.bluez.Adapter1
pub record Adapter : Type 0 where
  pub address : Option Text
  pub powered : Option Bool

-- org.bluez.Device1; an absent property is `none`
pub record Device : Type 0 where
  pub address : Option Text
  pub name : Option Text
  pub adapter : Option Text
  pub connected : Option Bool
  pub services_resolved : Option Bool
  pub paired : Option Bool
  pub bonded : Option Bool
  pub trusted : Option Bool
  pub blocked : Option Bool
  pub rssi : Option Value
  pub manufacturer : ManufacturerData

-- org.bluez.GattService1
pub record GattService : Type 0 where
  pub device : Option Text
  pub uuid : Option Text

-- org.bluez.GattCharacteristic1
pub record GattCharacteristic : Type 0 where
  pub service : Option Text
  pub uuid : Option Text
  pub flags : List String
  pub notifying : Option Bool
  pub mtu : Option Value

-- the interfaces of one object
pub record Interfaces : Type 0 where
  pub adapter : Option Adapter
  pub device : Option Device
  pub service : Option GattService
  pub char : Option GattCharacteristic

-- the objects by their paths, in the order of the dict
abbrev pub Objects : Type 0
Objects = List (Text × Interfaces)

unfoldable pub lookup {ℓ} : {A : Type ℓ} → Text → List (Text × A) → Option A
unfolding text_eq
lookup path [] = none
lookup path ((key, x) ∷ rest) =
    let later = lookup path rest in if text_eq key path then some x else later

abbrev no_adapter : Adapter
no_adapter = record { address = none; powered = none }

abbrev pub no_device : Device
no_device = record {
  address = none;
  name = none;
  adapter = none;
  connected = none;
  services_resolved = none;
  paired = none;
  bonded = none;
  trusted = none;
  blocked = none;
  rssi = none;
  manufacturer = ManufacturerData.items [];
}

abbrev text_or_empty : Option Text → Text
text_or_empty none = []
text_or_empty (some s) = s

abbrev adapter_of : Option Interfaces → Adapter
adapter_of none = no_adapter
adapter_of (some x) = elim x.adapter [ none ↦ no_adapter | some a ↦ a ]

abbrev device_of : Option Interfaces → Device
device_of none = no_device
device_of (some x) = elim x.device [ none ↦ no_device | some d ↦ d ]

-- target.device_path. A target without an adapter raises ValueError there; the checks before it is
-- asked for refuse such a target.
unfoldable pub path_of : Target → Text
unfolding device_path
path_of t = text_or_empty (device_path t)

-- objects.get(target.adapter_path or "", {}).get("org.bluez.Adapter1", {})
unfoldable pub adapter_at : Objects → Target → Adapter
unfolding lookup
adapter_at objects t = adapter_of (lookup (text_or_empty t.adapter_path) objects)

-- objects.get(target.device_path, {}).get(DEVICE_IF, {})
unfoldable pub device_at : Objects → Target → Device
unfolding lookup path_of
device_at objects t = device_of (lookup (path_of t) objects)

-- str.upper, up to characters whose image holds a character that no address has: the program only
-- compares the result with addresses. U+FB00 is the ligature of two f.
unfoldable pub upper : Text → Text
upper [] = []
upper (c ∷ rest) =
    (if leb b'a' c && leb c b'z'
      then (c - 32) ∷ []
      else if c == 0xFB00
      then b'F' ∷ b'F' ∷ []
      else c ∷ [])
    ++ upper rest

-- properties.get("Address", "").upper() == address, where `none` is None
unfoldable pub has_address : Option Text → Option Text → Bool
unfolding upper text_eq
has_address observed none = false
has_address observed (some address) = text_eq (upper (text_or_empty observed)) address

-- bool(properties.get(key))
abbrev pub is_set : Option Bool → Bool
is_set (some true) = true
is_set _ = false

-- properties.get(key) is False
abbrev pub is_false : Option Bool → Bool
is_false (some false) = true
is_false _ = false

-- properties.get(key) == text
unfoldable pub is_path : Option Text → Text → Bool
unfolding text_eq
is_path none text = false
is_path (some s) text = text_eq s text

-- rssi_dbm: the signal that the adapter has last observed, if it is one
unfoldable pub rssi_dbm : Device → Option ℤ
rssi_dbm d = elim d.rssi [
  | some (int n) ↦ if leb_ℤ (negsuc 126) n && leb_ℤ n (pos 20) then some n else none
  | _ ↦ none
]
