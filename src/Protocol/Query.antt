-- ===== src/Protocol/Query.antt =====
-- `Query`, `Control`, `Listen` and `query_frame` of protocol.py: the requests that can be built at
-- all, and the bytes that each sends.
use ha_aiper_ble.Prelude.{
  ℕ, String, Bool, true, false, not, ◌&&◌, ◌||◌, Option, some, [], ◌∷◌, ◌++◌, length, all, leb,
  ◌==◌, if◌then◌else◌, str_eq,
}
use ha_aiper_ble.Prelude.Int.{pos}
use ha_aiper_ble.Prelude.Text.{Text, Bytes, codes}
use ha_aiper_ble.Prelude.Optional
use ha_aiper_ble.Outcome.{Result, ok, err, protocol, ◌>>=◌}
use ha_aiper_ble.Value.{Value, bool, int, str, obj, Fields, end, field}
use ha_aiper_ble.Value.Json.{dumps, utf8}
use ha_aiper_ble.Protocol.Crc.{crc16}
use ha_aiper_ble.Protocol.Codec.{xor, b64encode}

pub record Query : Type 0 where
  pub checksum_mode : String
  pub write_mode : String
  pub allow_missing_advertisement : Bool
  pub query_type : String
  pub exploratory : Bool

pub record Control : Type 0 where
  pub action : String
  pub allow_missing_advertisement : Bool
  pub checksum_mode : String
  pub write_mode : String
  pub query_type : String

-- Query | Control
pub data Request : Type 0 where
  query : Query → Request
  control : Control → Request

-- type(value) is bool
unfoldable pub require_bool : Value → Result Bool
require_bool (bool b) = ok b
require_bool _ = err (protocol "invalid_legacy_probe_confirmation")

unfoldable pub is_upper : ℕ → Bool
is_upper c = leb b'A' c && leb c b'Z'

unfoldable pub is_digit : ℕ → Bool
is_digit c = leb b'0' c && leb c b'9'

-- [A-Z0-9_]
unfoldable pub is_keyword_char : ℕ → Bool
unfolding is_upper is_digit
is_keyword_char c = is_upper c || is_digit c || c == b'_'

-- EXPLORATORY_QUERY.fullmatch: [A-Z][A-Z0-9_]{1,15}
unfoldable pub exploratory_match : Text → Bool
unfolding is_keyword_char
exploratory_match [] = false
exploratory_match (c ∷ rest) =
    is_upper c && leb 1 (length rest) && leb (length rest) 15 && all is_keyword_char rest

-- query_type in {"OpInfo", "S1_INFO", "INFO", "WARN"}
unfoldable pub is_fixed_query : String → Bool
is_fixed_query t = str_eq t "OpInfo" || str_eq t "S1_INFO" || str_eq t "INFO" || str_eq t "WARN"

-- Query(checksum_mode, write_mode, allow_missing_advertisement, query_type, exploratory) with its
-- __post_init__
unfoldable pub make_query : String → String → Value → String → Bool → Result Query
unfolding require_bool exploratory_match is_fixed_query
make_query checksum_mode write_mode allow query_type exploratory =
    if not (str_eq checksum_mode "include_empty_crc" || str_eq checksum_mode "omit_empty_crc")
    then err (protocol "invalid_checksum_mode")
    else if not (str_eq write_mode "command" || str_eq write_mode "request")
    then err (protocol "invalid_write_mode")
    else (require_bool allow >>= λ allow_missing.
        if not
          (if exploratory then exploratory_match (codes query_type) else is_fixed_query query_type)
        then err (protocol "invalid_query_type")
        else ok (record {
          checksum_mode = checksum_mode;
          write_mode = write_mode;
          allow_missing_advertisement = allow_missing;
          query_type = query_type;
          exploratory = exploratory;
        }))

unfoldable pub is_control_action : String → Bool
is_control_action a = str_eq a "start_cleaning" || str_eq a "stop_cleaning"

-- Control(action, allow_missing_advertisement, checksum_mode, write_mode, query_type)
unfoldable pub make_control : String → Value → String → String → String → Result Control
unfolding require_bool is_control_action
make_control action allow checksum_mode write_mode query_type =
    if not (is_control_action action)
    then err (protocol "invalid_control")
    else (require_bool allow >>= λ allow_missing.
        if not (
          str_eq checksum_mode "nonempty_crc"
          && str_eq write_mode "request"
          && str_eq query_type "MODE")
        then err (protocol "invalid_control")
        else ok (record {
          action = action;
          allow_missing_advertisement = allow_missing;
          checksum_mode = checksum_mode;
          write_mode = write_mode;
          query_type = query_type;
        }))

abbrev pub query_type_of : Request → String
query_type_of (query q) = q.query_type
query_type_of (control c) = c.query_type

abbrev pub checksum_mode_of : Request → String
checksum_mode_of (query q) = q.checksum_mode
checksum_mode_of (control c) = c.checksum_mode

abbrev one_field : Text → Value → Fields
one_field key value = field key value end

-- {"cmd": text}
unfoldable pub cmd_data : Text → Value
cmd_data text = obj (one_field (codes "cmd") (str text))

-- Whether a query goes as a Machine command: query.exploratory or one of three fixed types.
unfoldable pub is_machine_query : Query → Bool
is_machine_query q =
    q.exploratory
    || str_eq q.query_type "S1_INFO"
    || str_eq q.query_type "INFO"
    || str_eq q.query_type "WARN"

-- command["type"]
unfoldable pub command_type : Request → Text
unfolding is_machine_query
command_type (query q) = if is_machine_query q then codes "Machine" else codes "OpInfo"
command_type (control c) = codes "Machine"

-- command["data"]
unfoldable pub command_data : Request → Value
unfolding is_machine_query cmd_data
command_data (query q) =
    if is_machine_query q
    then cmd_data (codes "AT+" ++ (codes q.query_type ++ codes "?"))
    else obj end
command_data (control c) =
    cmd_data (if str_eq c.action "start_cleaning" then codes "AT+MODE=1" else codes "AT+MODE=0")

-- json.dumps(value, separators=(",", ":")).encode(), with the default ensure_ascii=True
unfoldable pub encode_json : Value → Option Bytes
encode_json value = Optional.◌>>=◌ (dumps true value) utf8

-- whether the command carries a checksum
unfoldable pub has_checksum : Request → Bool
has_checksum r =
    not (str_eq (query_type_of r) "OpInfo") || str_eq (checksum_mode_of r) "include_empty_crc"

-- the whole command, given the bytes of its data
unfoldable pub command_of : Request → Bytes → Value
unfolding command_type command_data has_checksum
command_of r encoded_data = obj (
    field (codes "type") (str (command_type r)) (
      field (codes "data") (command_data r) (
        if has_checksum r
        then one_field (codes "chksum") (int (pos (crc16 encoded_data)))
        else end)))

-- The JSON text that `query_frame` sends; `none` would be a text that cannot be encoded.
unfoldable pub command_bytes : Request → Option Bytes
unfolding encode_json command_of
command_bytes r = Optional.◌>>=◌ (encode_json (command_data r)) (λ d. encode_json (command_of r d))

-- base64.b64encode(xor(encoded)) + b"\n"
unfoldable pub wire_frame : Bytes → Bytes
unfolding xor b64encode
wire_frame encoded = b64encode (xor encoded) ++ 10 ∷ []

unfoldable pub query_frame : Request → Option Bytes
unfolding command_bytes
query_frame r = Optional.◌>>=◌ (command_bytes r) (λ encoded. some (wire_frame encoded))
