-- ===== src/Protocol/Evidence.antt =====
-- `response_evidence` and `exploratory_evidence` of protocol.py: what of a reply may be kept.
pub mod Kept
use ha_aiper_ble.Prelude.{
  ℕ, min, String, Bool, true, false, ◌&&◌, ◌||◌, Option, none, some, List, [], ◌∷◌, ◌++◌, map,
  length, take, drop, all, ltb, leb, ◌==◌, if◌then◌else◌, str_eq,
}
use ha_aiper_ble.Prelude.Int.{pos}
use ha_aiper_ble.Prelude.Text.{Text, Bytes, codes, text_eq}
use ha_aiper_ble.Prelude.Optional
use ha_aiper_ble.Outcome.{Result, ok, err, other}
use ha_aiper_ble.Value.{
  Value, Items, nil, cons, Fields, null, bool, int, str, arr, obj, end, field, get, as_dict, as_str,
}
use ha_aiper_ble.Value.Json.{dumps, utf8}
use ha_aiper_ble.Protocol.Crc.{crc16}
use ha_aiper_ble.Protocol.Query.{Request, is_upper, is_digit, query_type_of}
use ha_aiper_ble.Protocol.Scan.{split_commas}
use ha_aiper_ble.Protocol.Reply.{starts_with}
use ha_aiper_ble.Protocol.Telemetry.{is_str, is_exploratory}

-- text.removesuffix(suffix), for a suffix that is not empty
unfoldable pub remove_suffix : Text → Text → Text
unfolding text_eq
remove_suffix suffix [] = []
remove_suffix suffix (c ∷ rest) =
    if text_eq (c ∷ rest) suffix then [] else c ∷ remove_suffix suffix rest

-- text.endswith(suffix), for a suffix that is not empty
unfoldable pub ends_with : Text → Text → Bool
unfolding text_eq
ends_with suffix [] = false
ends_with suffix (c ∷ rest) = text_eq (c ∷ rest) suffix || ends_with suffix rest

abbrev crlf : Text
crlf = 13 ∷ 10 ∷ []

abbrev newline : Text
newline = 10 ∷ []

unfoldable pub terminator : Text → String
unfolding ends_with
terminator text =
    if ends_with crlf text then "CRLF" else if ends_with newline text then "LF" else "none"

-- text.removesuffix("\r\n").removesuffix("\n")
unfoldable pub reply_line : Text → Text
unfolding remove_suffix
reply_line text = remove_suffix newline (remove_suffix crlf text)

-- "report" if that is a str, else "ack"
unfoldable pub source_of : Fields → String
source_of fields = elim (as_str (get fields "report")) [ none ↦ "ack" | some _ ↦ "report" ]

-- type(value) is int and value == n
unfoldable pub is_exactly : ℕ → Option Value → Bool
is_exactly n (some (int (pos m))) = m == n
is_exactly n _ = false

-- The data as the robot has dumped it; `none` is the ValueError of a float that is not finite or of a
-- lone surrogate.
unfoldable pub dumped : Fields → Option Bytes
dumped fields = Optional.◌>>=◌ (dumps false (obj fields)) utf8

-- the checksum (an int within 16 bits, as the CRC is) and the result
unfoldable pub crc_and_result_valid : Fields → Bytes → Bool
unfolding is_exactly
crc_and_result_valid response encoded =
    is_exactly (crc16 encoded) (get response "chksum") && is_exactly 0 (get response "res")

-- [ +\-0-9.]{1,12}
unfoldable pub is_numeric_char : ℕ → Bool
unfolding is_digit
is_numeric_char c = c == b' ' || c == b'+' || c == b'-' || is_digit c || c == b'.'

unfoldable pub is_numeric_field : Text → Bool
unfolding is_numeric_char
is_numeric_field s = leb 1 (length s) && leb (length s) 12 && all is_numeric_char s

abbrev texts : List Text → Items
texts [] = nil
texts (s ∷ rest) = cons (str s) (texts rest)

-- the entry on the numeric fields, of the text after "+INFO:"
unfoldable pub numeric_evidence : Text → Fields
unfolding is_numeric_field reply_line split_commas
numeric_evidence text =
    let fields = split_commas (reply_line (drop 6 text)) in
    if leb (length text) 160 && leb (length fields) 12 && all is_numeric_field fields
    then field (codes "numeric_fields") (arr (texts fields)) end
    else field (codes "numeric_fields_redacted") (bool true) end

-- the whole evidence of an INFO reply
unfoldable pub info_evidence : String → Text → Bool → Fields
unfolding terminator numeric_evidence
info_evidence source text valid =
    let measured =
      field (codes "length") (int (pos (min (length text) 4096)))
        (field (codes "terminator") (str (codes (terminator text))) (numeric_evidence text)) in
    field (codes "query") (str (codes "INFO")) (
      field (codes "source") (str (codes source))
        (field (codes "crc_and_result_valid") (bool valid) (if valid then measured else end)))

-- [^A-Za-z0-9 +\-.,:;=_/?], the characters that are replaced
unfoldable pub is_reply_char : ℕ → Bool
unfolding is_upper is_digit
is_reply_char c =
    is_upper c
    || (leb b'a' c && leb c b'z')
    || is_digit c
    || c == b' '
    || c == b'+'
    || c == b'-'
    || c == b'.'
    || c == b','
    || c == b':'
    || c == b';'
    || c == b'='
    || c == b'_'
    || c == b'/'
    || c == b'?'

unfoldable pub sanitized : Text → Text
unfolding is_reply_char
sanitized text = map (λ c. if is_reply_char c then c else b'?') text

abbrev pub reply_text_limit : ℕ
reply_text_limit = 96

-- response.get("res") if its type is int
unfoldable pub res_or_none : Option Value → Value
res_or_none (some (int n)) = int n
res_or_none _ = null

unfoldable pub reply_evidence : String → String → Fields → Text → Bool → Fields
unfolding res_or_none terminator reply_line sanitized starts_with
reply_evidence query_type source response text valid =
    let body = reply_line text in
    field (codes "query") (str (codes query_type)) (
      field (codes "source") (str (codes source)) (
        field (codes "crc_and_result_valid") (bool valid) (
          field (codes "res") (res_or_none (get response "res")) (
            field (codes "length") (int (pos (min (length text) 4096))) (
              field (codes "terminator") (str (codes (terminator text))) (
                field (codes "matches_keyword")
                  (bool (starts_with (codes "+" ++ (codes query_type ++ codes ":")) body))
                  (field (codes "reply_text") (str (take reply_text_limit (sanitized body))) (
                    field (codes "reply_truncated") (bool (ltb reply_text_limit (length body)))
                      end))))))))

-- The case of a Machine reply whose "data" is a dict, given the text, if it is one.
unfoldable pub exploratory_text_evidence : String → Fields → Fields → Option Text → Result Fields
unfolding source_of dumped crc_and_result_valid reply_evidence
exploratory_text_evidence query_type response fields none = ok (
    field (codes "query") (str (codes query_type)) (
      field (codes "source") (str (codes (source_of fields)))
        (field (codes "reply") (str (codes "not_text")) end)))
exploratory_text_evidence query_type response fields (some text) = elim (dumped fields) [
  | none ↦ err other
  | some encoded ↦ ok (
      reply_evidence query_type (source_of fields) response text
        (crc_and_result_valid response encoded))
]

-- response.get("type") == "Machine"
unfoldable pub is_machine : Fields → Bool
unfolding is_str
is_machine response = elim (get response "type") [ none ↦ false | some t ↦ is_str t "Machine" ]

unfoldable pub exploratory_evidence : Fields → String → Result Fields
unfolding is_machine source_of exploratory_text_evidence
exploratory_evidence response query_type =
    if is_machine response
    then elim (as_dict (get response "data")) [
      | none ↦ ok end
      | some fields ↦
          exploratory_text_evidence query_type response fields
            (as_str (get fields (source_of fields)))
    ]
    else ok end

-- the case of an INFO reply from the Machine
unfoldable pub info_text_evidence : Fields → Fields → Option Text → Result Fields
unfolding starts_with source_of dumped crc_and_result_valid info_evidence
info_text_evidence response fields none = ok end
info_text_evidence response fields (some text) =
    if starts_with (codes "+INFO:") text
    then elim (dumped fields) [
      | none ↦ err other
      | some encoded ↦
          ok (info_evidence (source_of fields) text (crc_and_result_valid response encoded))
    ]
    else ok end

unfoldable pub response_evidence : Fields → Request → Result Fields
unfolding exploratory_evidence is_machine source_of info_text_evidence
response_evidence response request =
    if is_exploratory request
    then exploratory_evidence response (query_type_of request)
    else if str_eq (query_type_of request) "INFO" && is_machine response
    then elim (as_dict (get response "data")) [
      | none ↦ ok end
      | some fields ↦ info_text_evidence response fields (as_str (get fields (source_of fields)))
    ]
    else ok end
