-- ===== src/Bluez/Faults.antt =====
-- `error_code`, `sample_hex` and the categories of probe.py.
pub mod Read
use ha_aiper_ble.Prelude.{
  ℕ, ◌+◌, ◌-◌, ◌/◌, ◌%◌, String, Bool, false, not, ◌||◌, Option, some, List, [], ◌∷◌, length, all,
  any, ltb, leb, ◌==◌, if◌then◌else◌, str_eq,
}
use ha_aiper_ble.Prelude.Int.{ℤ, pos}
use ha_aiper_ble.Prelude.Text.{Text, codes, text_eq}
use ha_aiper_ble.Bluez.Guards.{
  Fault, probe_error, bluez_error, protocol_error, timed_out, interrupted, internal, Checked,
  passed, failed,
}

-- name.rsplit(".", 1)[-1], given what follows the last dot so far
unfoldable pub after_last_dot : Text → Text → Text
after_last_dot part [] = part
after_last_dot part (c ∷ rest) = after_last_dot (if c == b'.' then rest else part) rest

abbrev pub last_part : Text → Text
last_part name = after_last_dot name name

-- the names of BlueZ that have a code of their own
abbrev bluez_codes : List (String × String)
bluez_codes =
    ("NotAuthorized", "bluez_NotAuthorized")
    ∷ ("NotPermitted", "bluez_NotPermitted")
    ∷ ("NotSupported", "bluez_NotSupported")
    ∷ ("InProgress", "bluez_InProgress")
    ∷ ("AlreadyConnected", "bluez_AlreadyConnected")
    ∷ ("NotConnected", "bluez_NotConnected")
    ∷ ("Failed", "bluez_Failed")
    ∷ ("AlreadyExists", "bluez_AlreadyExists")
    ∷ ("InvalidArguments", "bluez_InvalidArguments")
    ∷ ("InvalidValueLength", "bluez_InvalidValueLength")
    ∷ ("NotReady", "bluez_NotReady")
    ∷ []

unfoldable pub bluez_code : List (String × String) → Text → String
unfolding text_eq
bluez_code [] part = "bluez_error"
bluez_code ((name, code) ∷ rest) part =
    let later = bluez_code rest part in if text_eq part (codes name) then code else later

-- the codes of ProtocolError that may be shown
abbrev protocol_codes : List String
protocol_codes =
    "invalid_checksum_mode" ∷ "invalid_write_mode" ∷ "invalid_legacy_probe_confirmation"
    ∷ "query_already_attempted" ∷ "listen_already_attempted" ∷ "connection_lost_while_listening"
    ∷ "capture_pending_at_deadline" ∷ "unsupported_write_or_notify_flags"
    ∷ "security_gated_endpoint" ∷ "unsupported_model" ∷ "ecdh_unsupported" ∷ "ecdh_gatt_unsupported"
    ∷ "protocol_malformed" ∷ "protocol_unknown" ∷ "invalid_s1_info_response"
    ∷ "invalid_info_response" ∷ "invalid_warn_response" ∷ "notification_endpoint_changed"
    ∷ "notifications_already_active" ∷ "notification_queue_overflow" ∷ "invalid_notification"
    ∷ "capture_limit" ∷ "frame_limit" ∷ "invalid_frame" ∷ "unsupported_response_envelope" ∷ []

-- `error_code`; a cancellation is an internal error to it
unfoldable pub error_code : Fault → String
unfolding bluez_code after_last_dot
error_code timed_out = "timeout"
error_code (bluez_error name) = bluez_code bluez_codes (last_part name)
error_code (protocol_error code) =
    if any (λ c. str_eq c code) protocol_codes then code else "protocol_error"
error_code (probe_error message) = "validation_failed"
error_code interrupted = "internal_error"
error_code (internal name) = "internal_error"

-- the category that `probe` reports
unfoldable pub fault_category : Fault → String
fault_category (protocol_error code) = "protocol"
fault_category timed_out = "timeout"
fault_category _ = "transport"

-- f"unconfirmed: {type(exc).__name__}", where `named` makes the text of any other class
unfoldable pub unconfirmed : (String → String) → Fault → String
unconfirmed named (probe_error message) = "unconfirmed: ProbeError"
unconfirmed named (bluez_error name) = "unconfirmed: BluezError"
unconfirmed named (protocol_error code) = "unconfirmed: ProtocolError"
unconfirmed named timed_out = "unconfirmed: TimeoutError"
unconfirmed named interrupted = "unconfirmed: CancelledError"
unconfirmed named (internal name) = named name

abbrev pub max_sample_bytes : ℕ
max_sample_bytes = 512

-- What ReadValue returns: a byte array, as its items where they are ints, or anything else.
pub data Sample : Type 0 where
  items : List (Option ℤ) → Sample
  no_array : Sample

unfoldable pub is_byte : Option ℤ → Bool
is_byte (some (pos n)) = leb n 255
is_byte _ = false

unfoldable pub hex_digit : ℕ → ℕ
hex_digit n = if ltb n 10 then b'0' + n else b'a' + (n - 10)

-- bytes(value).hex(), of items that have passed `is_byte`
unfoldable pub hex : List (Option ℤ) → Text
unfolding hex_digit
hex [] = []
hex (some (pos n) ∷ rest) = hex_digit (n / 16) ∷ hex_digit (n % 16) ∷ hex rest
hex (_ ∷ rest) = hex rest

unfoldable pub sample_hex : Sample → Checked Text
unfolding is_byte hex
sample_hex no_array = failed (probe_error "Read returned an invalid byte array.")
sample_hex (items bytes) =
    if ltb max_sample_bytes (length bytes) || not (all is_byte bytes)
    then failed (probe_error "Read returned an oversized or invalid byte array.")
    else passed (hex bytes)
