-- ===== src/Protocol/Reply.antt =====
-- `query_telemetry` of protocol.py: what a decoded response answers to a request. The patterns of
-- `re.fullmatch` stand as tests on the characters. A temperature is parsed by Python's `float`, the
-- parameter `to_float`, which takes the matched text to the `repr` of its float; `div10` is the
-- float's quotient by 10.
use ha_aiper_ble.Prelude.{
  ℕ, ◌+◌, ◌^◌, String, Bool, true, false, ◌&&◌, Option, none, some, List, [], ◌∷◌, ◌++◌, map,
  length, all, leb, ◌==◌, if◌then◌else◌, str_eq,
}
use ha_aiper_ble.Prelude.Int.{ℤ, pos, negsuc}
use ha_aiper_ble.Prelude.Text.{Text, codes, text_eq, strip_prefix}
use ha_aiper_ble.Prelude.Optional
use ha_aiper_ble.Outcome.{Result, ok, err, protocol}
use ha_aiper_ble.Value.{Value, Fields, get, as_str, int, null, float, bool, field, end}
use ha_aiper_ble.Protocol.Scan.{
  int_match, int_of, before_crlf, split_commas, fits_signed, sign_and_digits,
}
use ha_aiper_ble.Protocol.Query.{Request, query, control, is_digit}

-- report if isinstance(report, str) else data.get("ack"), where that is a str
unfoldable pub reply_text : Fields → Option Text
unfolding get
reply_text fields = elim (as_str (get fields "report")) [
  | some text ↦ some text
  | none ↦ as_str (get fields "ack")
]

-- Python's floats, as far as the program computes with them: `float(s)` of a matched decimal and
-- the quotient by 10, on the `repr` of floats.
pub record Floats : Type 0 where
  pub to_float : Text → Text
  pub div10 : Text → Text

-- str.lower and str.casefold, up to characters whose image holds no ASCII letter: the program only
-- compares the result with ASCII texts. U+212A is the Kelvin sign, U+0130 the dotted I.
unfoldable pub lower_char : ℕ → Text
lower_char c =
    if leb b'A' c && leb c b'Z'
    then (c + 32) ∷ []
    else if c == 0x212A
    then b'k' ∷ []
    else if c == 0x130
    then b'i' ∷ 0x307 ∷ []
    else c ∷ []

unfoldable pub lower : Text → Text
unfolding lower_char
lower [] = []
lower (c ∷ rest) = lower_char c ++ lower rest

unfoldable pub starts_with : Text → Text → Bool
unfolding strip_prefix
starts_with prefix s = elim (strip_prefix prefix s) [ none ↦ false | some _ ↦ true ]

-- the setters' acknowledgement
unfoldable pub control_reply : Option Text → Result (Option Fields)
unfolding lower starts_with
control_reply none = ok none
control_reply (some value) =
    let low = lower value in
    if starts_with (codes "+error") low
    then err (protocol "control_device_error")
    else if text_eq low (codes "+ok" ++ (13 ∷ 10 ∷ []))
    then ok (some (field (codes "acknowledged") (bool true) end))
    else if starts_with (codes "+ok") low
    then err (protocol "unsupported_control_ack")
    else ok none

-- What stands between a reply's prefix and its line break; an absent prefix is no reply at all.
unfoldable pub reply_body : String → Option Text → Option (Option Text)
unfolding strip_prefix before_crlf
reply_body prefix value =
    Optional.◌>>=◌ value
      λ text. Optional.◌>>=◌ (strip_prefix (codes prefix) text) λ rest. some (before_crlf rest)

-- \+WARN:([+-]?[0-9]{1,19})\r\n, an int64
unfoldable pub warn_reply : Option (Option Text) → Result (Option Fields)
unfolding int_match int_of fits_signed
warn_reply none = ok none
warn_reply (some none) = err (protocol "invalid_warn_response")
warn_reply (some (some body)) =
    if int_match 19 body && fits_signed (2 ^ 63) (int_of body)
    then ok (some (field (codes "warning_code_raw") (int (int_of body)) end))
    else err (protocol "invalid_warn_response")

-- battery if 0 <= battery <= 100 else None
unfoldable pub battery_value : ℤ → Value
battery_value (pos n) = if leb n 100 then int (pos n) else null
battery_value (negsuc n) = null

unfoldable pub info_values : List ℤ → Option Fields
unfolding battery_value
info_values (status ∷ mode ∷ battery ∷ []) = some (
    field (codes "info_status_raw") (int status) (
      field (codes "info_mode_raw") (int mode)
        (field (codes "battery") (battery_value battery) end)))
info_values (status ∷ mode ∷ battery ∷ fourth ∷ fifth ∷ []) = some (
    field (codes "info_status_raw") (int status) (
      field (codes "info_mode_raw") (int mode) (
        field (codes "battery") (battery_value battery) (
          field (codes "info_field_4_raw") (int fourth)
            (field (codes "info_field_5_raw") (int fifth) end)))))
info_values _ = none

-- The fields of an INFO body: three or five (a count that `info_values` refuses is no match), each
-- [+-]?[0-9]{1,10} and within int32.
unfoldable pub info_reply : Option (Option Text) → Result (Option Fields)
unfolding int_match int_of fits_signed split_commas info_values
info_reply none = ok none
info_reply (some none) = err (protocol "invalid_info_response")
info_reply (some (some body)) =
    let parts = split_commas body in
    if all (int_match 10) parts && all (fits_signed (2 ^ 31)) (map int_of parts)
    then elim (info_values (map int_of parts)) [
      | none ↦ err (protocol "invalid_info_response")
      | some values ↦ ok (some values)
    ]
    else err (protocol "invalid_info_response")

-- s.partition(".")[0], and the rest if there is a point
unfoldable pub before_point : Text → Text × Option Text
before_point [] = ([], none)
before_point (c ∷ rest) =
    let more = before_point rest in if c == b'.' then ([], some rest) else (c ∷ more.0, more.1)

-- [+-]?[0-9]{1,9}(?:\.[0-9]{1,6})?
unfoldable pub decimal_match : Text → Bool
unfolding sign_and_digits is_digit before_point
decimal_match s =
    let (whole, fraction) = before_point (sign_and_digits s).1 in
    leb 1 (length whole) && leb (length whole) 9 && all is_digit whole && elim fraction [
      | none ↦ true
      | some digits ↦ leb 1 (length digits) && leb (length digits) 6 && all is_digit digits
    ]

unfoldable pub s1_info_fields : Floats → List Text → Result (Option Fields)
unfolding decimal_match int_match int_of fits_signed
s1_info_fields floats (temperature ∷ solar ∷ []) =
    if decimal_match temperature && int_match 10 solar && fits_signed (2 ^ 31) (int_of solar)
    then ok (
        some (
          field (codes "temperature_raw") (float (floats.to_float temperature)) (
            field (codes "temperature_celsius") (float (floats.div10 (floats.to_float temperature)))
              (field (codes "solar_status") (int (int_of solar)) end))))
    else err (protocol "invalid_s1_info_response")
s1_info_fields floats _ = err (protocol "invalid_s1_info_response")

unfoldable pub s1_info_reply : Floats → Option (Option Text) → Result (Option Fields)
unfolding s1_info_fields split_commas
s1_info_reply floats none = ok none
s1_info_reply floats (some none) = err (protocol "invalid_s1_info_response")
s1_info_reply floats (some (some body)) = s1_info_fields floats (split_commas body)

-- a Machine response's data
unfoldable pub machine_reply : Floats → Request → Fields → Result (Option Fields)
unfolding reply_text reply_body control_reply warn_reply info_reply s1_info_reply
machine_reply floats (control c) fields = control_reply (reply_text fields)
machine_reply floats (query q) fields =
    if str_eq q.query_type "WARN"
    then warn_reply (reply_body "+WARN:" (reply_text fields))
    else if str_eq q.query_type "INFO"
    then info_reply (reply_body "+INFO:" (reply_text fields))
    else s1_info_reply floats (reply_body "+S1_INFO:" (reply_text fields))
