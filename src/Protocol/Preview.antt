-- ===== src/Protocol/Preview.antt =====
-- `preview` of protocol.py: what a request would send, without a bus.
pub mod Shows
use ha_aiper_ble.Prelude.{
  ℕ, ◌/◌, ◌%◌, String, not, Option, none, some, [], ◌∷◌, length, ◌==◌, if◌then◌else◌, str_eq,
}
use ha_aiper_ble.Prelude.Text.{Text, Bytes}
use ha_aiper_ble.Value.{Value}
use ha_aiper_ble.Value.Json.{hex_digit}
use ha_aiper_ble.Protocol.Codec.{xor, b64decode}
use ha_aiper_ble.Protocol.Query.{
  Request, query, control, query_type_of, checksum_mode_of, query_frame,
}
use ha_aiper_ble.Prelude.Optional

-- The entries that depend on the request. `request_json` is none where json.loads would raise.
pub record Preview : Type 0 where
  pub command : String
  pub checksum_mode : String
  pub write_mode : String
  pub request_json : Option Value
  pub request_hex : Text
  pub request_bytes : ℕ
  pub recommended_checksum_mode : String
  pub checksum_semantics : String

-- bytes.hex()
unfoldable pub hex_of : Bytes → Text
unfolding hex_digit
hex_of [] = []
hex_of (b ∷ rest) = hex_digit (b / 16) ∷ hex_digit (b % 16) ∷ hex_of rest

-- base64.b64decode(frame): the line break is no character of the alphabet, and is skipped
unfoldable pub skip_line_breaks : Bytes → Bytes
skip_line_breaks [] = []
skip_line_breaks (b ∷ rest) =
    let skipped = skip_line_breaks rest in if b == 10 then skipped else b ∷ skipped

abbrev pub unmask : Option Bytes → Option Bytes
unmask none = none
unmask (some masked) = some (xor masked)

unfoldable pub request_text : Bytes → Option Bytes
unfolding skip_line_breaks b64decode xor
request_text frame = unmask (b64decode (skip_line_breaks frame))

abbrev pub read_text : (Bytes → Option Value) → Option Bytes → Option Value
read_text loads none = none
read_text loads (some text) = loads text

abbrev write_mode_of : Request → String
write_mode_of (query q) = q.write_mode
write_mode_of (control c) = c.write_mode

-- of the request's frame
unfoldable pub preview_of : (Bytes → Option Value) → Request → Bytes → Preview
unfolding request_text hex_of
preview_of loads r frame = record {
  command = query_type_of r;
  checksum_mode = checksum_mode_of r;
  write_mode = write_mode_of r;
  request_json = read_text loads (request_text frame);
  request_hex = hex_of frame;
  request_bytes = length frame;
  recommended_checksum_mode =
      if str_eq (query_type_of r) "OpInfo"
      then "omit_empty_crc"
      else "not_applicable_nonempty_data";
  checksum_semantics =
      if not (str_eq (query_type_of r) "OpInfo")
      then "nonempty_data_crc_required"
      else if str_eq (checksum_mode_of r) "include_empty_crc"
      then "explicit_empty_object"
      else "null_data_legacy_serializer";
}

unfoldable pub preview : (Bytes → Option Value) → Request → Option Preview
unfolding query_frame preview_of
preview loads r = Optional.◌>>=◌ (query_frame r) (λ frame. some (preview_of loads r frame))
