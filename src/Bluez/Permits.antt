-- ===== src/Bluez/Permits.antt =====
-- Which messages may go out: `Bluez.call` of probe.py, and `call` and `_exact` of telemetry.py. A call
-- that is let through is appended to `sent`; what the bus replies is an argument.
pub mod Messages
pub mod Plan
use ha_aiper_ble.Prelude.{
  String, Bool, true, false, not, ◌&&◌, ◌||◌, Option, none, some, List, [], ◌∷◌, ◌++◌,
  if◌then◌else◌, str_eq,
}
use ha_aiper_ble.Prelude.Text.{Text, Bytes, codes, text_eq}
use ha_aiper_ble.Target.{Target}
use ha_aiper_ble.Bluez.Objects.{path_of}
use ha_aiper_ble.Bluez.Guards.{Fault, probe_error, bluez_error, Checked, passed, failed}

abbrev pub char_interface : String
char_interface = "org.bluez.GattCharacteristic1"

abbrev pub device_interface : String
device_interface = "org.bluez.Device1"

abbrev pub properties_interface : String
properties_interface = "org.freedesktop.DBus.Properties"

-- The bodies that are in use: none, the empty options of a read, one text, and a chunk with its type.
pub data Body : Type 0 where
  nothing options : Body
  text : Text → Body
  chunk : Bytes → String → Body

-- body == other
unfoldable pub same_body : Body → Body → Bool
unfolding text_eq
same_body nothing nothing = true
same_body options options = true
same_body (text s) (text t) = text_eq s t
same_body (chunk b mode) (chunk b' mode') = text_eq b b' && str_eq mode mode'
same_body _ _ = false

pub record Message : Type 0 where
  pub path : Text
  pub interface : String
  pub member : String
  pub signature : String
  pub body : Body

unfoldable pub same_message : Message → Message → Bool
unfolding text_eq same_body
same_message m n =
    text_eq m.path n.path
    && str_eq m.interface n.interface
    && str_eq m.member n.member
    && str_eq m.signature n.signature
    && same_body m.body n.body

-- reply_body: no reply, an error with its name, or a body
pub data Reply {ℓ} (A : Type ℓ) : Type ℓ where
  no_reply : Reply A
  error_reply : Option Text → Reply A
  answer : A → Reply A

unfoldable pub reply_body {ℓ} : {A : Type ℓ} → Reply A → Checked A
reply_body no_reply = failed (probe_error "D-Bus call returned no reply.")
reply_body (error_reply none) = failed (bluez_error (codes "org.bluez.Error.Unknown"))
reply_body (error_reply (some [])) = failed (bluez_error (codes "org.bluez.Error.Unknown"))
reply_body (error_reply (some (c ∷ name))) = failed (bluez_error (c ∷ name))
reply_body (answer body) = passed body

-- The mutable fields of Bluez and QueryBluez, and the messages sent through `call`.
pub record Permits : Type 0 where
  pub read_path : Option Text
  pub permit : Option Message
  pub query_path : Option Text
  pub start_used : Bool
  pub stop_used : Bool
  pub write_plan : List Body
  pub sent : List Message

unfoldable pub transmit : Message → Permits → Permits
transmit m p = record p { sent = p.sent ++ m ∷ [] }

-- (path, interface, member) in allowed
unfoldable pub is_allowed : Option Target → Message → Bool
unfolding text_eq path_of
is_allowed target m =
    (text_eq m.path (codes "/")
      && str_eq m.interface "org.freedesktop.DBus.ObjectManager"
      && str_eq m.member "GetManagedObjects")
    || elim target [
      | none ↦ false
      | some t ↦
          text_eq m.path (path_of t)
          && ((str_eq m.interface properties_interface && str_eq m.member "GetAll")
              || (str_eq m.interface device_interface
                  && (str_eq m.member "Connect" || str_eq m.member "Disconnect")))
    ]

-- the one permitted read
unfoldable pub is_permitted_read : Option Text → Message → Bool
unfolding text_eq same_body
is_permitted_read none m = false
is_permitted_read (some path) m =
    text_eq m.path path
    && str_eq m.interface char_interface
    && str_eq m.member "ReadValue"
    && str_eq m.signature "a{sv}"
    && same_body m.body options

-- Bluez.call
unfoldable pub base_call {ℓ} :
    {A : Type ℓ} → Option Target → Message → Reply A → Permits → Checked A × Permits
unfolding is_permitted_read is_allowed transmit reply_body
base_call target m reply p =
    if is_permitted_read p.read_path m
    then (reply_body reply, transmit m (record p { read_path = none }))
    else if is_allowed target m
    then (reply_body reply, transmit m p)
    else (failed (probe_error "Operation outside diagnostic allowlist."), p)

unfoldable pub is_permitted : Option Message → Message → Bool
unfolding same_message
is_permitted none m = false
is_permitted (some permit) m = same_message m permit

-- QueryBluez.call
unfoldable pub query_call {ℓ} :
    {A : Type ℓ} → Option Target → Message → Reply A → Permits → Checked A × Permits
unfolding is_permitted base_call transmit reply_body
query_call target m reply p =
    let other = base_call target m reply p in
    if is_permitted p.permit m
    then (reply_body reply, transmit m (record p { permit = none }))
    else other

abbrev pub is_nothing : Body → Bool
is_nothing nothing = true
is_nothing _ = false

-- the next entry of the write plan, and the rest
unfoldable pub next_write : List Body → Body → Option (List Body)
unfolding same_body
next_write [] body = none
next_write (planned ∷ plan) body = if same_body body planned then some plan else none

-- The state once the plan admits the operation; `none` is its refusal.
unfoldable pub use_plan : String → String → Body → Permits → Option Permits
unfolding next_write
use_plan member signature body p =
    let bare = str_eq signature "" && is_nothing body in
    let writing =
      if str_eq member "WriteValue" && str_eq signature "aya{sv}"
      then next_write p.write_plan body
      else none in
    if str_eq member "StartNotify" && bare && not p.start_used
    then some (record p { start_used = true })
    else if str_eq member "StopNotify" && bare && p.start_used && not p.stop_used
    then some (record p { stop_used = true })
    else elim writing [ none ↦ none | some plan ↦ some (record p { write_plan = plan }) ]

abbrev pub is_query_path : Option Text → Text → Bool
is_query_path none path = false
is_query_path (some allowed) path = text_eq path allowed

abbrev pub after_plan {ℓ} :
    {A : Type ℓ} → Option Permits → (Permits → Checked A × Permits) → Permits → Checked A × Permits
after_plan none call p = (failed (probe_error "Operation outside one-shot query plan."), p)
after_plan (some p') call p = let (result, q) = call p' in (result, record q { permit = none })

-- QueryBluez._exact; a path of None is refused like one that is not the query's
unfoldable pub exact {ℓ} :
    {A : Type ℓ}
    → Option Target
    → Text
    → String
    → String
    → Body
    → Reply A
    → Permits
    → Checked A × Permits
unfolding use_plan query_call text_eq
exact target path member signature body reply p =
    let m : Message = record {
      path = path;
      interface = char_interface;
      member = member;
      signature = signature;
      body = body;
    } in
    if is_query_path p.query_path path
    then after_plan (use_plan member signature body p)
        (λ p'. query_call target m reply (record p' { permit = some m })) p
    else (failed (probe_error "Query endpoint not authorised."), p)
