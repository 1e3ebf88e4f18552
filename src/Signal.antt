-- ===== src/Signal.antt =====
-- `SignalMonitor` of signal.py: the last reading of the robot's advertisement, and when the entities
-- hear of it. A reading is an int; Home Assistant's callbacks are the events.
pub mod Runs
pub mod Heard
mod Tests
use ha_aiper_ble.Prelude.{
  ℕ, ◌+◌, Bool, true, false, not, ◌&&◌, Option, none, some, List, [], ◌∷◌, ◌++◌, leb, if◌then◌else◌,
}
use ha_aiper_ble.Prelude.Int.{ℤ, pos, negsuc, sub_ℕ, leb_ℤ}
use ha_aiper_ble.Prelude.Text.{Text}

-- What an advertisement says, as far as it can be read: the signal, the source, and its age in
-- milliseconds.
pub record Info : Type 0 where
  pub rssi : Option ℤ
  pub source : Option Text
  pub age : Option ℕ

-- The fields; `notified` is what the listeners were called for, the last of it last.
pub record Monitor : Type 0 where
  pub rssi : Option ℤ
  pub seen_at : Option ℤ
  pub source : Option Text
  pub active : Bool
  pub published : Option ℤ
  pub published_at : Option ℕ
  pub notified : List (Option ℤ)

abbrev pub new_monitor : Monitor
new_monitor = record {
  rssi = none;
  seen_at = none;
  source = none;
  active = false;
  published = none;
  published_at = none;
  notified = [];
}

abbrev pub signal_publish : ℕ
signal_publish = 10000

-- number(value, minimum, maximum), of an int
unfoldable pub number : Option ℤ → ℤ → ℤ → Option ℤ
number none low high = none
number (some n) low high = if leb_ℤ low n && leb_ℤ n high then some n else none

-- number(age, 0, 86400) or 0
unfoldable pub age_or_zero : Option ℕ → ℕ
age_or_zero none = 0
age_or_zero (some age) = if leb age 86400000 then age else 0

-- `_observe`, of the reading that it finds
unfoldable pub observed : ℕ → Info → Monitor → Option ℤ → Bool × Monitor
unfolding age_or_zero
observed utcnow info m none = (false, m)
observed utcnow info m (some n) = (
  true,
  record m {
    rssi = some n;
    source = info.source;
    seen_at = some (sub_ℕ utcnow (age_or_zero info.age));
  },
)

-- `_observe`, at a time of the wall clock
unfoldable pub observe : ℕ → Info → Monitor → Bool × Monitor
unfolding number observed
observe utcnow info m = observed utcnow info m (number info.rssi (negsuc 126) (pos 20))

-- `_publish`
unfoldable pub publish : ℕ → Monitor → Monitor
publish now m = record m {
  published = m.rssi;
  published_at = some now;
  notified = m.notified ++ m.rssi ∷ [];
}

-- `_unavailable`
unfoldable pub unavailable : ℕ → Monitor → Monitor
unfolding publish
unavailable now m = publish now (record m { rssi = none; source = none })

-- a == b, of readings
unfoldable pub same_reading : Option ℤ → Option ℤ → Bool
same_reading none none = true
same_reading (some a) (some b) = leb_ℤ a b && leb_ℤ b a
same_reading _ _ = false

-- the condition of `_advertisement`: nothing is published yet, or that was 10 seconds ago
unfoldable pub is_due : ℕ → Monitor → Bool
is_due now m = elim m.published [
  | none ↦ true
  | some n ↦ elim m.published_at [ none ↦ true | some then_at ↦ leb (then_at + signal_publish) now ]
]

-- `_advertisement`
unfoldable pub advertisement : ℕ → ℕ → Info → Monitor → Monitor
unfolding observe same_reading is_due publish
advertisement now utcnow info m =
    let (fresh, m') = observe utcnow info m in
    if fresh && not (same_reading m'.rssi m'.published) && is_due now m' then publish now m' else m'

-- `_sample`, of what the cache has
unfoldable pub sample : ℕ → ℕ → Option Info → Monitor → Monitor
unfolding unavailable observe same_reading publish
sample now utcnow none m = elim m.rssi [ none ↦ m | some n ↦ unavailable now m ]
sample now utcnow (some info) m =
    let (fresh, m') = observe utcnow info m in
    if fresh && not (same_reading m'.rssi m'.published) then publish now m' else m'

-- `async_start`, if its three registrations succeed or one raises
unfoldable pub async_start : Bool → Monitor → Monitor
async_start registered m = record m { active = registered }

unfoldable pub async_stop : Monitor → Monitor
async_stop m = record m { active = false }

-- what Home Assistant calls, with the times of the two clocks in milliseconds
pub data Event : Type 0 where
  start : Bool → Event
  stop : Event
  advertised : ℕ → ℕ → Info → Event
  sampled : ℕ → ℕ → Option Info → Event
  lost : ℕ → Event

unfoldable pub handle : Event → Monitor → Monitor
unfolding async_start async_stop advertisement sample unavailable
handle (start registered) m = async_start registered m
handle stop m = async_stop m
handle (advertised now utcnow info) m = advertisement now utcnow info m
handle (sampled now utcnow info) m = sample now utcnow info m
handle (lost now) m = unavailable now m
