-- ===== src/Datapoints.antt =====
-- datapoints.py: the explicit allowlists of scalar data points. Whether a character is printable
-- (`str.isprintable`, a table of Unicode) is the parameter `is_printable`.
use ha_aiper_ble.Prelude.{
  ℕ, ◌-◌, ◌^◌, String, Bool, false, ◌&&◌, ◌||◌, Option, none, some, List, [], ◌∷◌, ◌++◌, length,
  all, ltb, leb, ◌==◌, if◌then◌else◌, str_eq,
}
use ha_aiper_ble.Prelude.Int.{ℤ, pos, negsuc}
use ha_aiper_ble.Prelude.Text.{Text, Bytes, codes}
use ha_aiper_ble.Value.{Value, Fields, int, str, null, end, field, get, as_dict, as_int, as_str}
use ha_aiper_ble.Value.Json.{utf8}
use ha_aiper_ble.Protocol.Query.{is_digit, is_upper}

-- integer(value, bits=bits): a signed Java integer, or None
unfoldable pub fits_bits : ℕ → ℤ → Bool
fits_bits bits (pos n) = ltb n (2 ^ (bits - 1))
fits_bits bits (negsuc n) = ltb n (2 ^ (bits - 1))

unfoldable pub integer : ℕ → Option Value → Option ℤ
unfolding fits_bits
integer bits value = elim (as_int value) [
  | none ↦ none
  | some n ↦ if fits_bits bits n then some n else none
]

unfoldable pub within_bytes : ℕ → Option Bytes → Bool
within_bytes limit none = false
within_bytes limit (some bytes) = leb (length bytes) limit

unfoldable pub network_name : (ℕ → Bool) → Option Value → Option Text
unfolding within_bytes
network_name is_printable value = elim (as_str value) [
  | none ↦ none
  | some text ↦
      if leb 1 (length text) && all is_printable text && within_bytes 32 (utf8 text)
      then some text
      else none
]

-- [A-Za-z0-9_+:/.-]
unfoldable pub is_timezone_char : ℕ → Bool
unfolding is_digit is_upper
is_timezone_char c =
    is_upper c
    || (leb b'a' c && leb c b'z')
    || is_digit c
    || c == b'_'
    || c == b'+'
    || c == b':'
    || c == b'/'
    || c == b'.'
    || c == b'-'

unfoldable pub timezone : Option Value → Option Text
unfolding is_timezone_char
timezone value = elim (as_str value) [
  | none ↦ none
  | some text ↦
      if leb 1 (length text) && leb (length text) 64 && all is_timezone_char text
      then some text
      else none
]

abbrev pub opinfo_fields : List String
opinfo_fields = "bat" ∷ "status" ∷ "link" ∷ []

abbrev pub machine_fields : List String
machine_fields =
    "cap" ∷ "mode" ∷ "solar_status" ∷ "status" ∷ "temp" ∷ "warn" ∷ "warn_code" ∷ "in_water" ∷ "link"
    ∷ "light" ∷ "visual" ∷ []

abbrev pub int_or_none : Option ℤ → Value
int_or_none none = null
int_or_none (some n) = int n

abbrev pub str_or_none : Option Text → Value
str_or_none none = null
str_or_none (some s) = str s

-- {f"{prefix}{field}_raw": integer(fields.get(field), bits=...) for field in names}
unfoldable pub raw_integers : String → List String → Fields → Fields → Fields
unfolding integer
raw_integers prefix [] fields tail = tail
raw_integers prefix (name ∷ names) fields tail =
    field (codes prefix ++ (codes name ++ codes "_raw"))
      (int_or_none (integer (if str_eq name "warn_code" then 64 else 32) (get fields name)))
      (raw_integers prefix names fields tail)

-- data.get("Machine") if it is a dict, else {}
unfoldable pub nested_machine : Fields → Fields
nested_machine data_fields = elim (as_dict (get data_fields "Machine")) [
  | none ↦ end
  | some machine ↦ machine
]

unfoldable pub opinfo_values : (ℕ → Bool) → Fields → Fields
unfolding integer network_name raw_integers nested_machine
opinfo_values is_printable data_fields =
    field (codes "wifi_rssi_raw") (int_or_none (integer 32 (get data_fields "wifi_rssi"))) (
      field (codes "wifi_name")
        (str_or_none (network_name is_printable (get data_fields "wifi_name")))
        (raw_integers "opinfo_" opinfo_fields data_fields
          (raw_integers "opinfo_machine_" machine_fields (nested_machine data_fields) end)))
