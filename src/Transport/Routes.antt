-- ===== src/Transport/Routes.antt =====
-- `validate_routes` and `endpoint` of bluetooth_transport.py: the checks before anything is written.
use ha_aiper_ble.Prelude.{
  ℕ, String, Bool, not, ◌&&◌, ◌||◌, Option, none, some, List, [], ◌∷◌, any, if◌then◌else◌, str_eq,
}
use ha_aiper_ble.Prelude.Text.{Text, codes, text_eq}
use ha_aiper_ble.Outcome.{Result, ok, err, protocol}
use ha_aiper_ble.Target.{Target, target_model, matches_name}
use ha_aiper_ble.Protocol.Hint.{ManufacturerData, protocol_hint, hint_refusal}
use ha_aiper_ble.Protocol.Reply.{lower}

-- One route on which the robot is advertised. The address is in upper case, the name is that of the
-- advertisement or else of the device; the last two fields are the backend's local metadata:
-- whether one of Paired, Bonded, Trusted and Blocked holds, and Connected.
pub record Advertised : Type 0 where
  pub address : Text
  pub name : Option Text
  pub manufacturer : ManufacturerData
  pub secured : Bool
  pub connected : Bool

-- what Home Assistant knows: the address of the device that it would use, and all routes
pub record Routes : Type 0 where
  pub device : Option Text
  pub routes : List Advertised

-- the checks of one route, up to the first that fails
unfoldable pub route_refusal : Target → Bool → Bool → Advertised → Option String
unfolding text_eq matches_name protocol_hint hint_refusal
route_refusal t allow connected r =
    if not (text_eq r.address t.address) || not (matches_name t r.name)
    then some "identity_changed"
    else elim (hint_refusal allow (protocol_hint r.manufacturer)) [
      | some code ↦ some code
      | none ↦
          if r.secured
          then some "security_gated_endpoint"
          else if not connected && r.connected
          then some "device_already_connected"
          else none
    ]

unfoldable pub routes_refusal : Target → Bool → Bool → List Advertised → Option String
unfolding route_refusal
routes_refusal t allow connected [] = none
routes_refusal t allow connected (r ∷ rest) =
    let others = routes_refusal t allow connected rest in
    elim (route_refusal t allow connected r) [ some code ↦ some code | none ↦ others ]

-- `validate_routes`, as the code of its ProtocolError
unfoldable pub validate_routes : Target → Bool → Bool → Routes → Option String
unfolding routes_refusal text_eq
validate_routes t allow connected known = elim (target_model t) [
  | none ↦ some "unsupported_model"
  | some model ↦ elim known.device [
    | none ↦ some "no_connectable_route"
    | some address ↦ elim known.routes [
      | [] ↦ some "no_connectable_route"
      | r ∷ rest ↦
          if not (text_eq address t.address)
          then some "identity_changed"
          else routes_refusal t allow connected (r ∷ rest)
    ]
  ]
]

pub record Characteristic : Type 0 where
  pub uuid : Text
  pub handle : ℕ
  pub properties : List String

pub record Service : Type 0 where
  pub uuid : Text
  pub characteristics : List Characteristic

abbrev pub expected_service : String
expected_service = "4a5ad444-2537-11ee-be56-0242ac120002"

abbrev pub expected_characteristic : String
expected_characteristic = "4a5a54e6-2537-11ee-be56-0242ac120002"

abbrev pub key_exchange_characteristic : String
key_exchange_characteristic = "4a5a64e6-2537-11ee-be56-0242ac120002"

-- uuid.lower() == text
unfoldable pub is_uuid : Text → String → Bool
unfolding text_eq lower
is_uuid uuid text = text_eq (lower uuid) (codes text)

-- a flag of a set of flags
abbrev pub has_flag : List String → String → Bool
has_flag flags flag = any (λ f. str_eq f flag) flags

-- flags & SECURITY_FLAGS
unfoldable pub is_security_gated : List String → Bool
is_security_gated flags =
    has_flag flags "encrypt-write"
    || has_flag flags "encrypt-authenticated-write"
    || has_flag flags "secure-write"
    || has_flag flags "authorize"
    || has_flag flags "encrypt-read"
    || has_flag flags "encrypt-authenticated-read"
    || has_flag flags "secure-read"

-- the members of a list that pass a test
unfoldable pub select {ℓ} : {A : Type ℓ} → (A → Bool) → List A → List A
select p [] = []
select p (x ∷ xs) = let rest = select p xs in if p x then x ∷ rest else rest

-- the flag that a write mode needs
unfoldable pub write_flag : String → String
write_flag write_mode = if str_eq write_mode "request" then "write" else "write-without-response"

-- the checks of the one characteristic
unfoldable pub check_flags : String → Characteristic → Result Characteristic
unfolding is_security_gated write_flag
check_flags write_mode c =
    if is_security_gated c.properties
    then err (protocol "security_gated_endpoint")
    else if has_flag c.properties "notify" && has_flag c.properties (write_flag write_mode)
    then ok c
    else err (protocol "unsupported_write_or_notify_flags")

unfoldable pub single_characteristic : String → List Characteristic → Result Characteristic
unfolding check_flags
single_characteristic write_mode (c ∷ []) = check_flags write_mode c
single_characteristic write_mode _ = err (protocol "ambiguous_characteristic")

unfoldable pub single_service : String → List Service → Result Characteristic
unfolding single_characteristic select is_uuid
single_service write_mode (s ∷ []) =
    single_characteristic write_mode
      (select (λ c. is_uuid c.uuid expected_characteristic) s.characteristics)
single_service write_mode _ = err (protocol "ambiguous_service")

-- a characteristic of the newer key exchange, on any service
unfoldable pub has_key_exchange : List Service → Bool
unfolding is_uuid
has_key_exchange services =
    any (λ s. any (λ c. is_uuid c.uuid key_exchange_characteristic) s.characteristics) services

-- `endpoint`, for a request's write mode
unfoldable pub endpoint : String → List Service → Result Characteristic
unfolding has_key_exchange select is_uuid single_service
endpoint write_mode services =
    if has_key_exchange services
    then err (protocol "ecdh_gatt_unsupported")
    else single_service write_mode (select (λ s. is_uuid s.uuid expected_service) services)
