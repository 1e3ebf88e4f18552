-- ===== src/Transport/Watch.antt =====
-- `TransportDiagnostics` of transport_diagnostics.py, which observes one query. What `optional` reads of
-- another library's object is an optional value. Times are counted in microseconds, so that
-- round(…, 3) of milliseconds changes nothing.
pub mod Anonymous
use ha_aiper_ble.Prelude.{
  ℕ, ◌+◌, ◌-◌, String, Bool, false, ◌&&◌, Option, none, some, List, [], ◌∷◌, ◌++◌, map, length,
  take, ltb, leb, if◌then◌else◌, str_eq,
}
use ha_aiper_ble.Prelude.Int.{ℤ, pos, negsuc}
use ha_aiper_ble.Prelude.Text.{Text, codes, text_eq, strip_prefix}
use ha_aiper_ble.Value.Json.{decimal}
use ha_aiper_ble.Signal.{number}

abbrev pub max_routes : ℕ
max_routes = 16

-- the classes that an exception is an instance of
pub record Raised : Type 0 where
  pub is_timeout : Bool
  pub is_bleak : Bool
  pub is_connection : Bool
  pub is_os : Bool

-- exception_kind
unfoldable pub exception_kind : Raised → String
exception_kind e =
    if e.is_timeout
    then "timeout"
    else if e.is_bleak
    then "bleak"
    else if e.is_connection
    then "connection"
    else if e.is_os
    then "os"
    else "other"

-- A scanner; `source` is none where it is no text. A time stamp, an age and a count are integers.
pub record Scanner : Type 0 where
  pub source : Option Text
  pub timestamp : Option ℕ
  pub slots : Option ℤ
  pub free : Option ℤ
  pub scanner_type : Option Text
  pub failures : Option ℤ
  pub in_progress : Option ℤ

pub record Candidate : Type 0 where
  pub scanner : Scanner
  pub rssi : Option ℤ
  pub address_type : Option ℤ

-- one entry of "routes"
pub record Row : Type 0 where
  pub route_id : Option Text
  pub scanner_type : String
  pub rssi_dbm : Option ℤ
  pub address_type : Option ℤ
  pub advertisement_age : Option ℕ
  pub slots : Option ℤ
  pub free_slots : Option ℤ
  pub connection_failures : Option ℤ
  pub connections_in_progress : Option ℤ

pub data Snapshot : Type 0 where
  unavailable : Snapshot
  available : Bool → List Row → Snapshot

-- The fields of the object, and the entries of `data`.
pub record Watch : Type 0 where
  pub started : ℕ
  pub phase_started : ℕ
  pub phase_name : Option String
  pub sources : List (Text × Text)
  pub backend : String
  pub selected_route : Option Text
  pub phase_us : List (String × ℕ)
  pub snapshots : List (String × Snapshot)
  pub errors : List (String × List String)
  pub elapsed : Option ℕ

unfoldable pub new_watch : ℕ → String → Watch
new_watch now transport = record {
  started = now;
  phase_started = now;
  phase_name = none;
  sources = [];
  backend = if str_eq transport "local_bluez" then "local_bluez" else "unknown";
  selected_route = none;
  phase_us = [];
  snapshots = [];
  errors = [];
  elapsed = none;
}

-- d[key] = value
unfoldable pub set_key {ℓ} : {A : Type ℓ} → String → A → List (String × A) → List (String × A)
set_key key v [] = (key, v) ∷ []
set_key key v ((k, w) ∷ rest) =
    let later = set_key key v rest in if str_eq k key then (k, v) ∷ rest else (k, w) ∷ later

-- timings[key] = timings.get(key, 0) + n
unfoldable pub add_time : String → ℕ → List (String × ℕ) → List (String × ℕ)
add_time key n [] = (key, n) ∷ []
add_time key n ((k, m) ∷ rest) =
    let later = add_time key n rest in if str_eq k key then (k, m + n) ∷ rest else (k, m) ∷ later

unfoldable pub phase : ℕ → Option String → Watch → Watch
unfolding add_time
phase now name w = record w {
  phase_us = elim w.phase_name [
    | none ↦ w.phase_us
    | some last ↦ add_time last (now - w.phase_started) w.phase_us
  ];
  phase_started = now;
  phase_name = name;
}

-- self.sources.get(source)
unfoldable pub find_source : Text → List (Text × Text) → Option Text
unfolding text_eq
find_source source [] = none
find_source source ((known, id) ∷ rest) =
    let later = find_source source rest in if text_eq known source then some id else later

-- f"route_{n}"
unfoldable pub route_name : ℕ → Text
unfolding decimal
route_name n = codes "route_" ++ decimal n

unfoldable pub add_source : Text → List (Text × Text) → List (Text × Text)
unfolding find_source route_name
add_source source known = elim (find_source source known) [
  | some id ↦ known
  | none ↦
      if ltb (length known) max_routes
      then known ++ (source, route_name (length known + 1)) ∷ []
      else known
]

-- route_id: the name that stands for the scanner, and what is kept
unfoldable pub route_id : Option Text → List (Text × Text) → Option Text × List (Text × Text)
unfolding add_source find_source
route_id none known = (none, known)
route_id (some []) known = (none, known)
route_id (some (c ∷ source)) known =
    let later = add_source (c ∷ source) known in (find_source (c ∷ source) later, later)

-- number(value), of 0 to 1e9
abbrev count_of : Option ℤ → Option ℤ
count_of v = number v (pos 0) (pos 1000000000)

-- 1e9 seconds
abbrev max_time : ℕ
max_time = 1000000000000000

-- monotonic_time_coarse() - timestamp, if the stamp is a number and the difference is
unfoldable pub age_of : ℕ → Option ℕ → Option ℕ
age_of now none = none
age_of now (some stamp) =
    if leb stamp max_time && leb stamp now && leb (now - stamp) max_time
    then some (now - stamp)
    else none

unfoldable pub kind_of : Option Text → String
unfolding text_eq
kind_of none = "unknown"
kind_of (some kind) =
    if text_eq kind (codes "usb")
    then "usb"
    else if text_eq kind (codes "uart")
    then "uart"
    else if text_eq kind (codes "remote")
    then "remote"
    else "unknown"

-- one round of the loop over the candidates
unfoldable pub row_of : ℕ → Candidate → Option Text → Row
unfolding kind_of number age_of
row_of now c id = record {
  route_id = id;
  scanner_type = kind_of c.scanner.scanner_type;
  rssi_dbm = number c.rssi (negsuc 126) (pos 20);
  address_type = number c.address_type (pos 0) (pos 3);
  advertisement_age = age_of now c.scanner.timestamp;
  slots = count_of c.scanner.slots;
  free_slots = count_of c.scanner.free;
  connection_failures = count_of c.scanner.failures;
  connections_in_progress = count_of c.scanner.in_progress;
}

unfoldable pub rows_of : ℕ → List Candidate → List (Text × Text) → List Row × List (Text × Text)
unfolding route_id row_of
rows_of now [] known = ([], known)
rows_of now (c ∷ cs) known =
    let (id, known') = route_id c.scanner.source known in
    let (rows, last) = rows_of now cs known' in (row_of now c id ∷ rows, last)

-- `snapshot`; `none` is what is no list of routes
unfoldable pub snapshot : ℕ → Option (List Candidate) → String → Watch → Watch
unfolding set_key rows_of
snapshot now none stage w = record w { snapshots = set_key stage unavailable w.snapshots }
snapshot now (some routes) stage w =
    let (rows, known) = rows_of now (take max_routes routes) w.sources in
    record w {
      sources = known;
      snapshots = set_key stage (available (ltb max_routes (length routes)) rows) w.snapshots;
    }

-- `client`, of the backend's id, of its class's module, and of the source of its scanner
unfoldable pub client : Option Text → Option Text → Option Text → Watch → Watch
unfolding text_eq strip_prefix route_id
client backend_id mod_name source w =
    let (id, known) = route_id source w.sources in
    record w {
      backend = elim mod_name [
        | none ↦
            if elim backend_id [ none ↦ false | some b ↦ text_eq b (codes "bluez_dbus") ]
            then "bleak_bluez"
            else w.backend
        | some name ↦ elim (strip_prefix (codes "bleak_esphome.") name) [
          | some rest ↦ "bleak_esphome"
          | none ↦
              if elim backend_id [ none ↦ false | some b ↦ text_eq b (codes "bluez_dbus") ]
              then "bleak_bluez"
              else w.backend
        ]
      ];
      sources = known;
      selected_route = elim id [ none ↦ w.selected_route | some route ↦ some route ];
    }

-- `error`, of an exception and what it was raised from, as far as that goes
unfoldable pub error : List Raised → String → Watch → Watch
unfolding exception_kind set_key
error chain stage w = record w {
  errors = set_key stage (map exception_kind (take 3 chain)) w.errors;
}

unfoldable pub finish : ℕ → Watch → Watch
unfolding phase
finish now w = record (phase now none w) { elapsed = some (now - w.started) }
