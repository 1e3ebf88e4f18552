-- ===== src/Protocol/Codec.antt =====
-- The byte layers of protocol.py: `xor`, `base64.b64encode`, `base64.b64decode(validate=True)` and
-- `chunks`.
pub mod Laws
pub mod Pieces
use ha_aiper_ble.Prelude.{
  ℕ, zero, suc, ◌+◌, ◌-◌, ◌*◌, ◌/◌, ◌%◌, bit_xor, min, Bool, true, false, ◌++◌, ◌&&◌, List, [], ◌∷◌,
  Option, none, some, length, take, drop, leb, ltb, ◌==◌, if◌then◌else◌,
}
use ha_aiper_ble.Prelude.Int.{ℤ, pos, negsuc}
use ha_aiper_ble.Prelude.Optional.{◌>>=◌}
use ha_aiper_ble.Prelude.Text.{Bytes}

-- XOR_KEY[index % 4]
unfoldable pub key_byte : ℕ → ℕ
key_byte index =
    let i = index % 4 in
    if i == 0 then 0x12 else if i == 1 then 0x34 else if i == 2 then 0x56 else 0x78

-- the comprehension, from the given index on
unfoldable pub xor_from : ℕ → Bytes → Bytes
unfolding key_byte
xor_from index [] = []
xor_from index (byte ∷ rest) = bit_xor byte (key_byte index) ∷ xor_from (index + 1) rest

unfoldable pub xor : Bytes → Bytes
unfolding xor_from
xor bytes = xor_from 0 bytes

-- the standard base64 alphabet
unfoldable pub base64_char : ℕ → ℕ
base64_char v =
    if ltb v 26
    then v + b'A'
    else if ltb v 52
    then v - 26 + b'a'
    else if ltb v 62
    then v - 52 + b'0'
    else if v == 62
    then b'+'
    else b'/'

unfoldable pub base64_value : ℕ → Option ℕ
base64_value c =
    if leb b'A' c && leb c b'Z'
    then some (c - b'A')
    else if leb b'a' c && leb c b'z'
    then some (c - b'a' + 26)
    else if leb b'0' c && leb c b'9'
    then some (c - b'0' + 52)
    else if c == b'+'
    then some 62
    else if c == b'/'
    then some 63
    else none

-- base64.b64encode: three bytes to four characters, with `=` to fill up the last four.
unfoldable pub b64encode : Bytes → Bytes
unfolding base64_char
b64encode [] = []
b64encode (a ∷ []) = base64_char (a / 4) ∷ base64_char (a % 4 * 16) ∷ b'=' ∷ b'=' ∷ []
b64encode (a ∷ b ∷ []) =
    base64_char (a / 4) ∷ base64_char (a % 4 * 16 + b / 16) ∷ base64_char (b % 16 * 4) ∷ b'=' ∷ []
b64encode (a ∷ b ∷ c ∷ rest) =
    base64_char (a / 4)
    ∷ base64_char (a % 4 * 16 + b / 16)
    ∷ base64_char (b % 16 * 4 + c / 64)
    ∷ base64_char (c % 64)
    ∷ b64encode rest

-- a group of four characters that holds three bytes
unfoldable pub full_group : ℕ → ℕ → ℕ → ℕ → Option Bytes
unfolding base64_value
full_group a b c d = do
  p ← base64_value a
  q ← base64_value b
  r ← base64_value c
  s ← base64_value d
  some ((p * 4 + q / 16) ∷ (q % 16 * 16 + r / 4) ∷ (r % 4 * 64 + s) ∷ [])

-- a last group that ends in one `=`
unfoldable pub two_byte_group : ℕ → ℕ → ℕ → Option Bytes
unfolding base64_value
two_byte_group a b c = do
  p ← base64_value a
  q ← base64_value b
  r ← base64_value c
  some ((p * 4 + q / 16) ∷ (q % 16 * 16 + r / 4) ∷ [])

-- a last group that ends in `==`
unfoldable pub one_byte_group : ℕ → ℕ → Option Bytes
unfolding base64_value
one_byte_group a b = do p ← base64_value a; q ← base64_value b; some ((p * 4 + q / 16) ∷ [])

abbrev pub is_empty : Bytes → Bool
is_empty [] = true
is_empty (_ ∷ _) = false

-- base64.b64decode(frame, validate=True): no character but the alphabet's, and `=` only at the end
-- of a last group. `none` is the `binascii.Error`.
unfoldable pub b64decode : Bytes → Option Bytes
unfolding full_group two_byte_group one_byte_group
b64decode [] = some []
b64decode (a ∷ b ∷ c ∷ d ∷ rest) =
    let following = b64decode rest in
    if d == b'=' && is_empty rest
    then (if c == b'=' then one_byte_group a b else two_byte_group a b c)
    else do group ← full_group a b c d; bytes ← following; some (group ++ bytes)
b64decode _ = none

-- the slices frame[index : index + size] for index in range(0, len(frame), size); `rounds` is at
-- least the number of slices
unfoldable pub slices : ℕ → ℕ → Bytes → List Bytes
slices zero size frame = []
slices (suc rounds) size [] = []
slices (suc rounds) size (byte ∷ rest) =
    take size (byte ∷ rest) ∷ slices rounds size (drop size (byte ∷ rest))

-- min(200, mtu - 3) if isinstance(mtu, int) and mtu >= 23 else 20; `none` is an mtu that is no int
unfoldable pub chunk_size : Option ℤ → ℕ
chunk_size (some (pos mtu)) = if leb 23 mtu then min 200 (mtu - 3) else 20
chunk_size _ = 20

unfoldable pub chunks : Bytes → Option ℤ → List Bytes
unfolding slices chunk_size
chunks frame mtu = slices (length frame) (chunk_size mtu) frame
