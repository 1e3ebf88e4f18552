-- ===== src/Value/Json.antt =====
-- `json.dumps(value, separators=(",", ":"))` and `str.encode("utf-8")`, as protocol.py and
-- coordinator.py call them.
use ha_aiper_ble.Prelude.{
  ℕ, zero, suc, ◌+◌, ◌-◌, ◌/◌, ◌%◌, Bool, true, false, not, ◌&&◌, ◌||◌, Option, none, some, [], ◌∷◌,
  ◌++◌, ltb, leb, ◌==◌, if◌then◌else◌,
}
use ha_aiper_ble.Prelude.Int.{ℤ, pos, negsuc}
use ha_aiper_ble.Prelude.Text.{Text, Bytes, codes, text_eq}
use ha_aiper_ble.Prelude.Optional.{◌>>=◌}
use ha_aiper_ble.Value.{
  Value, null, bool, int, float, str, arr, obj, Items, nil, cons, Fields, end, field,
}

-- str(n): `rounds` is more than the number of digits
unfoldable pub decimal_rounds : ℕ → ℕ → Text
decimal_rounds zero n = []
decimal_rounds (suc rounds) n =
    let high = decimal_rounds rounds (n / 10) in
    if ltb n 10 then (b'0' + n) ∷ [] else high ++ (b'0' + n % 10) ∷ []

unfoldable pub decimal : ℕ → Text
unfolding decimal_rounds
decimal n = decimal_rounds (suc n) n

unfoldable pub int_text : ℤ → Text
unfolding decimal
int_text (pos n) = decimal n
int_text (negsuc n) = b'-' ∷ decimal (suc n)

-- one hexadecimal digit, in lower case
unfoldable pub hex_digit : ℕ → ℕ
hex_digit d = if ltb d 10 then b'0' + d else b'a' + (d - 10)

-- \uXXXX
unfoldable pub unicode_escape : ℕ → Text
unfolding hex_digit
unicode_escape c =
    b'\\'
    ∷ b'u'
    ∷ hex_digit (c / 4096 % 16)
    ∷ hex_digit (c / 256 % 16)
    ∷ hex_digit (c / 16 % 16)
    ∷ hex_digit (c % 16)
    ∷ []

-- What `ensure_ascii` does with a character outside printable ASCII.
unfoldable pub ascii_escape : ℕ → Text
unfolding unicode_escape
ascii_escape c =
    if ltb c 0x10000
    then unicode_escape c
    else unicode_escape (0xD800 + (c - 0x10000) / 1024)
      ++ unicode_escape (0xDC00 + (c - 0x10000) % 1024)

unfoldable pub escape_char : Bool → ℕ → Text
unfolding unicode_escape ascii_escape
escape_char ensure_ascii c =
    if c == b'"'
    then b'\\' ∷ b'"' ∷ []
    else if c == b'\\'
    then b'\\' ∷ b'\\' ∷ []
    else if c == 10
    then b'\\' ∷ b'n' ∷ []
    else if c == 13
    then b'\\' ∷ b'r' ∷ []
    else if c == 9
    then b'\\' ∷ b't' ∷ []
    else if c == 12
    then b'\\' ∷ b'f' ∷ []
    else if c == 8
    then b'\\' ∷ b'b' ∷ []
    else if ltb c 32
    then unicode_escape c
    else if ensure_ascii && ltb 126 c
    then ascii_escape c
    else c ∷ []

unfoldable pub escape : Bool → Text → Text
unfolding escape_char
escape ensure_ascii [] = []
escape ensure_ascii (c ∷ s) = escape_char ensure_ascii c ++ escape ensure_ascii s

unfoldable pub quote : Bool → Text → Text
unfolding escape
quote ensure_ascii s = b'"' ∷ (escape ensure_ascii s ++ b'"' ∷ [])

-- `allow_nan=False` refuses these with a ValueError. (No request holds a float.)
unfoldable pub is_finite : Text → Bool
unfolding text_eq
is_finite f = not (text_eq f (codes "nan") || text_eq f (codes "inf") || text_eq f (codes "-inf"))

unfoldable mutual
  unfolding int_text quote is_finite

  pub dumps : Bool → Value → Option Text
  dumps a null = some (codes "null")
  dumps a (bool true) = some (codes "true")
  dumps a (bool false) = some (codes "false")
  dumps a (int n) = some (int_text n)
  dumps a (float f) = if is_finite f then some f else none
  dumps a (str s) = some (quote a s)
  dumps a (arr xs) = do inner ← dumps_items a xs; some (b'[' ∷ (inner ++ b']' ∷ []))
  dumps a (obj fs) = do inner ← dumps_fields a fs; some (b'{' ∷ (inner ++ b'}' ∷ []))

  pub dumps_items : Bool → Items → Option Text
  dumps_items a nil = some []
  dumps_items a (cons x nil) = dumps a x
  dumps_items a (cons x (cons y ys)) = do
    first ← dumps a x
    others ← dumps_items a (cons y ys)
    some (first ++ b',' ∷ others)

  pub dumps_fields : Bool → Fields → Option Text
  dumps_fields a end = some []
  dumps_fields a (field k v end) = do value ← dumps a v; some (quote a k ++ b':' ∷ value)
  dumps_fields a (field k v (field k' v' rest)) = do
    value ← dumps a v
    others ← dumps_fields a (field k' v' rest)
    some (quote a k ++ b':' ∷ (value ++ b',' ∷ others))

-- A lone surrogate has no UTF-8 form: the UnicodeEncodeError is `none`.
unfoldable pub utf8_char : ℕ → Option Bytes
utf8_char c =
    if ltb c 0x80
    then some (c ∷ [])
    else if ltb c 0x800
    then some ((0xC0 + c / 64) ∷ (0x80 + c % 64) ∷ [])
    else if leb 0xD800 c && leb c 0xDFFF
    then none
    else if ltb c 0x10000
    then some ((0xE0 + c / 4096) ∷ (0x80 + c / 64 % 64) ∷ (0x80 + c % 64) ∷ [])
    else some
        ((0xF0 + c / 262144) ∷ (0x80 + c / 4096 % 64) ∷ (0x80 + c / 64 % 64) ∷ (0x80 + c % 64) ∷ [])

unfoldable pub utf8 : Text → Option Bytes
unfolding utf8_char
utf8 [] = some []
utf8 (c ∷ s) = do head ← utf8_char c; rest ← utf8 s; some (head ++ rest)
