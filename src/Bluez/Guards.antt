-- ===== src/Bluez/Guards.antt =====
-- The checks of probe.py and telemetry.py on the objects that BlueZ returns, before anything is sent.
use ha_aiper_ble.Prelude.{
  String, Bool, true, false, not, ◌&&◌, ◌||◌, Option, none, some, List, [], ◌∷◌, ◌++◌, any,
  if◌then◌else◌, str_eq,
}
use ha_aiper_ble.Prelude.Text.{Text}
use ha_aiper_ble.Target.{Target, target_model, matches_name}
use ha_aiper_ble.Protocol.Hint.{Hint, protocol_hint, Listen, hint_refusal}
use ha_aiper_ble.Protocol.Query.{Request}
use ha_aiper_ble.Protocol.Reply.{starts_with}
use ha_aiper_ble.Transport.Routes.{
  has_flag, is_security_gated, is_uuid, select, expected_service, expected_characteristic,
  key_exchange_characteristic,
}
use ha_aiper_ble.Transport.Session.{write_mode_of, allows_missing}
use ha_aiper_ble.Bluez.Objects.{
  Device, GattCharacteristic, Interfaces, Objects, lookup, path_of, adapter_at, device_at,
  has_address, is_set, is_false, is_path,
}

-- The exceptions of these modules: ProbeError with its message, BluezError with its name,
-- ProtocolError with its code, the deadline, a cancellation, and any other with the name of its class.
pub data Fault : Type 0 where
  probe_error : String → Fault
  bluez_error : Text → Fault
  protocol_error : String → Fault
  timed_out interrupted : Fault
  internal : String → Fault

-- What a check comes to: its value, or what it raises.
pub data Checked {ℓ} (A : Type ℓ) : Type ℓ where
  passed : A → Checked A
  failed : Fault → Checked A

-- Query | Control | Listen
pub data Asked : Type 0 where
  request : Request → Asked
  listen : Listen → Asked

unfoldable pub allows : Asked → Bool
allows (request r) = allows_missing r
allows (listen l) = l.allow_missing_advertisement

-- `validate`: the device, on the adapter that is pinned, not connected, blocked, paired or trusted
unfoldable pub validate : Objects → Target → Checked Device
unfolding adapter_at device_at has_address matches_name
validate objects t =
    let adapter = adapter_at objects t in
    let device = device_at objects t in
    if not (has_address adapter.address t.adapter_address)
    then failed (probe_error "Adapter identity differs from the configured local adapter.")
    else if not (is_set adapter.powered)
    then failed (probe_error "Adapter is off; this probe will not enable it.")
    else if not (has_address device.address (some t.address)) || not (matches_name t device.name)
    then failed (probe_error "Expected robot absent or identity changed; no scan or fallback.")
    else if not (is_false device.connected)
    then failed (probe_error "Robot already connected or connection state unknown; refusing.")
    else if is_set device.blocked
    then failed (probe_error "Robot blocked; this probe will not unblock it.")
    else if is_set device.paired || is_set device.bonded || is_set device.trusted
    then failed (probe_error "Pairing/trust differs from the reviewed baseline; review first.")
    else passed device

-- what `endpoint_properties` asks of the adapter and the connected robot
unfoldable pub is_attached : Objects → Target → Bool
unfolding adapter_at device_at has_address matches_name is_path path_of
is_attached objects t =
    let adapter = adapter_at objects t in
    let device = device_at objects t in
    has_address adapter.address t.adapter_address
    && is_set adapter.powered
    && has_address device.address (some t.address)
    && matches_name t device.name
    && elim t.adapter_path [ none ↦ false | some path ↦ is_path device.adapter path ]
    && is_set device.connected
    && is_set device.services_resolved
    && not (
        is_set device.paired
        || is_set device.bonded
        || is_set device.trusted
        || is_set device.blocked)

-- properties.get("UUID", "").lower() == uuid
unfoldable pub is_named : Option Text → String → Bool
unfolding is_uuid
is_named none uuid = false
is_named (some observed) uuid = is_uuid observed uuid

unfoldable pub is_robot_service : Target → Text × Interfaces → Bool
unfolding is_path path_of is_named
is_robot_service t (path, x) = elim x.service [
  | none ↦ false
  | some s ↦ is_path s.device (path_of t) && is_named s.uuid expected_service
]

-- the characteristics of a service, with their paths
unfoldable pub chars_of : Text → Objects → List (Text × GattCharacteristic)
unfolding is_path is_named
chars_of service [] = []
chars_of service ((path, x) ∷ objects) =
    let rest = chars_of service objects in
    elim x.char [
      | none ↦ rest
      | some c ↦
          if is_path c.service service && is_named c.uuid expected_characteristic
          then (path, c) ∷ rest
          else rest
    ]

abbrev slash : Text
slash = b'/' ∷ []

-- chars[0], if it is the only one and lies below the service
unfoldable pub single_char :
    Text → List (Text × GattCharacteristic) → Checked (Text × GattCharacteristic)
unfolding starts_with
single_char service ((path, c) ∷ []) =
    if starts_with (service ++ slash) path
    then passed (path, c)
    else failed (probe_error "Expected characteristic missing or ambiguous; refusing.")
single_char service _ =
    failed (probe_error "Expected characteristic missing or ambiguous; refusing.")

-- services[0], if it is the only one and lies below the device
unfoldable pub endpoint_of :
    Target → Objects → List (Text × Interfaces) → Checked (Text × GattCharacteristic)
unfolding starts_with chars_of single_char path_of
endpoint_of t objects ((service, x) ∷ []) =
    if starts_with (path_of t ++ slash) service
    then single_char service (chars_of service objects)
    else failed (probe_error "Expected service missing or ambiguous; refusing.")
endpoint_of t objects _ = failed (probe_error "Expected service missing or ambiguous; refusing.")

unfoldable pub endpoint_properties : Objects → Target → Checked (Text × GattCharacteristic)
unfolding is_attached endpoint_of select is_robot_service
endpoint_properties objects t =
    if is_attached objects t
    then endpoint_of t objects (select (is_robot_service t) objects)
    else failed (probe_error "Endpoint prerequisites changed; refusing.")

-- whether the service that a characteristic names is one of the robot
unfoldable pub is_robot_char : Target → Objects → GattCharacteristic → Bool
unfolding lookup is_path path_of
is_robot_char t objects c = elim c.service [
  | none ↦ false
  | some service ↦ elim (lookup service objects) [
    | none ↦ false
    | some x ↦ elim x.service [ none ↦ false | some s ↦ is_path s.device (path_of t) ]
  ]
]

-- a characteristic of the newer key exchange, below the robot's path or of one of its services
unfoldable pub is_key_exchange : Target → Objects → Text × Interfaces → Bool
unfolding starts_with path_of is_robot_char is_named
is_key_exchange t objects (path, x) = elim x.char [
  | none ↦ false
  | some c ↦
      (starts_with (path_of t ++ slash) path || is_robot_char t objects c)
      && is_named c.uuid key_exchange_characteristic
]

-- `validate_query_protocol`
unfoldable pub validate_query_protocol : Objects → Target → Asked → Checked Hint
unfolding is_key_exchange protocol_hint device_at hint_refusal allows
validate_query_protocol objects t asked = elim (target_model t) [
  | none ↦ failed (protocol_error "unsupported_model")
  | some model ↦
      if any (is_key_exchange t objects) objects
      then failed (protocol_error "ecdh_gatt_unsupported")
      else let hint = protocol_hint (device_at objects t).manufacturer in
        elim (hint_refusal (allows asked) hint) [
          | some code ↦ failed (protocol_error code)
          | none ↦ passed hint
        ]
]

-- the flag that a request's write mode needs, if it writes
unfoldable pub has_write_flag : Asked → List String → Bool
has_write_flag (listen l) flags = true
has_write_flag (request r) flags =
    if str_eq (write_mode_of r) "command"
    then has_flag flags "write-without-response"
    else has_flag flags "write"

-- the flags, and then the protocol
unfoldable pub check_query_endpoint :
    Objects
    → Target
    → Asked
    → Bool
    → Text × GattCharacteristic
    → Checked (Text × GattCharacteristic)
unfolding has_write_flag is_security_gated validate_query_protocol
check_query_endpoint objects t asked active (path, c) =
    let checked = validate_query_protocol objects t asked in
    if is_set c.notifying && not active
    then failed (protocol_error "notifications_already_active")
    else if not (has_flag c.flags "notify" && has_write_flag asked c.flags)
    then failed (protocol_error "unsupported_write_or_notify_flags")
    else if is_security_gated c.flags
    then failed (protocol_error "security_gated_endpoint")
    else elim checked [ failed e ↦ failed e | passed hint ↦ passed (path, c) ]

-- `query_endpoint` of telemetry.py
unfoldable pub query_endpoint :
    Objects → Target → Asked → Bool → Checked (Text × GattCharacteristic)
unfolding endpoint_properties check_query_endpoint
query_endpoint objects t asked active = elim (endpoint_properties objects t) [
  | failed e ↦ failed e
  | passed found ↦ check_query_endpoint objects t asked active found
]

-- `readable_path`
unfoldable pub readable_path : Objects → Target → Checked Text
unfolding endpoint_properties
readable_path objects t = elim (endpoint_properties objects t) [
  | failed e ↦ failed e
  | passed (path, c) ↦
      if not (has_flag c.flags "read")
        || has_flag c.flags "encrypt-read"
        || has_flag c.flags "encrypt-authenticated-read"
        || has_flag c.flags "secure-read"
        || has_flag c.flags "authorize"
        || is_set c.notifying
      then failed (probe_error "Characteristic unreadable or notifications active; refusing.")
      else passed path
]
