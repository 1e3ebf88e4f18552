-- ===== src/Coordinator/Verified.antt =====
-- `verified_values` of coordinator.py.
pub mod Sound
use ha_aiper_ble.Prelude.{
  ℕ, Bool, false, not, ◌||◌, Option, none, some, leb, ◌==◌, if◌then◌else◌, str_eq,
}
use ha_aiper_ble.Prelude.Int.{pos}
use ha_aiper_ble.Prelude.Text.{Bytes, codes}
use ha_aiper_ble.Prelude.Optional
use ha_aiper_ble.Outcome.{Result, ok, err, protocol, other, ◌>>=◌}
use ha_aiper_ble.Value.{Value, Fields, obj, int, end, field, get, as_dict, as_str, as_int, null}
use ha_aiper_ble.Value.Json.{dumps, utf8}
use ha_aiper_ble.Datapoints.{timezone, opinfo_values, str_or_none}
use ha_aiper_ble.Protocol.Crc.{crc16}
use ha_aiper_ble.Protocol.Query.{Query, Control, Request, query, control}
use ha_aiper_ble.Protocol.Reply.{Floats}
use ha_aiper_ble.Protocol.Telemetry.{query_telemetry, is_exploratory}

-- The parts of Python that stand outside the model: floats, and `str.isprintable` on a character.
pub record Python : Type 0 where
  pub floats : Floats
  pub is_printable : ℕ → Bool

-- type(response.get("res")) is int and response["res"] == 0
unfoldable pub is_success : Option Value → Bool
is_success (some (int (pos n))) = n == 0
is_success _ = false

-- a checksum of type int within 0 .. 65535
unfoldable pub checksum_of : Option Value → Option ℕ
checksum_of (some (int (pos n))) = if leb n 65535 then some n else none
checksum_of _ = none

-- json.dumps(data, separators=(",", ":"), ensure_ascii=False, allow_nan=False).encode("utf-8");
-- `none` is its ValueError
unfoldable pub crc_bytes : Value → Option Bytes
crc_bytes data_value = Optional.◌>>=◌ (dumps false data_value) utf8

unfoldable pub value_or_null : Option Value → Value
value_or_null none = null
value_or_null (some v) = v

-- the dict of an S1_INFO reading
unfoldable pub s1_values : Fields → Fields → Fields
unfolding value_or_null
s1_values values data_fields =
    field (codes "temperature") (value_or_null (get values "temperature_celsius")) (
      field (codes "temperature_raw") (value_or_null (get values "temperature_raw")) (
        field (codes "solar_status_raw") (value_or_null (get values "solar_status"))
          (field (codes "s1_timezone") (str_or_none (timezone (get data_fields "timeZone"))) end)))

module _ (py : Python) where
  -- what is published of the values that answer the request
  unfoldable pub published : Request → Fields → Fields → Fields
  unfolding s1_values
  published (control c) values data_fields = values
  published (query q) values data_fields =
      if q.exploratory
      then values
      else if str_eq q.query_type "INFO" || str_eq q.query_type "WARN"
      then values
      else if str_eq q.query_type "S1_INFO"
      then s1_values values data_fields
      else opinfo_values py.is_printable data_fields

  unfoldable pub publish : Request → Fields → Option Fields → Result Fields
  unfolding published
  publish request data_fields none = err (protocol "response_query_mismatch")
  publish request data_fields (some values) = ok (published request values data_fields)

  -- the checks after the checksum was compared
  unfoldable pub typed_values : Fields → Fields → Request → Result Fields
  unfolding publish
  typed_values response data_fields request = elim (as_str (get response "type")) [
    | none ↦ err (protocol "invalid_response")
    | some _ ↦ query_telemetry py.floats response request >>= publish request data_fields
  ]

  -- the checks of the result and of the checksum
  unfoldable pub checked_values : Fields → Fields → Request → Result Fields
  unfolding typed_values is_success checksum_of crc_bytes
  checked_values response data_fields request =
      if not (is_success (get response "res"))
      then err (protocol "response_not_successful")
      else elim (checksum_of (get response "chksum")) [
        | none ↦ err (protocol "response_checksum_missing")
        | some checksum ↦ elim (crc_bytes (obj data_fields)) [
          | none ↦ err other
          | some encoded ↦
              if crc16 encoded == checksum
              then typed_values response data_fields request
              else err (protocol "response_checksum_mismatch")
        ]
      ]

  unfoldable pub verified_values : Option Value → Request → Result Fields
  unfolding checked_values
  verified_values response request = elim (as_dict response) [
    | none ↦ err (protocol "invalid_response")
    | some fields ↦ elim (as_dict (get fields "data")) [
      | none ↦ err (protocol "invalid_response")
      | some data_fields ↦ checked_values fields data_fields request
    ]
  ]
