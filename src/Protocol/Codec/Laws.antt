-- ===== src/Protocol/Codec/Laws.antt =====
-- `xor` and base64 undo themselves.
use ha_aiper_ble.Prelude.{
  ℕ, ◌+◌, ◌*◌, ◌/◌, ◌%◌, ◌^◌, ◌≤◌, ◌<◌, ◌≡◌, refl, false, some, [], ◌∷◌, arith, All, ◌==◌,
}
use ha_aiper_ble.Prelude.Text.{Bytes}
use ha_aiper_ble.Prelude.Bits.{bit_xor_cancel, bit_xor-lt}
use ha_aiper_ble.Protocol.Crc.Detect.{IsByte}
use ha_aiper_ble.Protocol.Codec.{
  key_byte, xor_from, xor, base64_char, base64_value, b64encode, full_group, two_byte_group,
  one_byte_group, b64decode,
}

xor_from_involutive : (i : ℕ) (bytes : Bytes) → xor_from i (xor_from i bytes) ≡ bytes
unfolding xor_from
xor_from_involutive i [] = refl
xor_from_involutive i (b ∷ r) = cc (bit_xor_cancel b (key_byte i), xor_from_involutive (i + 1) r)

-- The obfuscation of a frame undoes itself, on any bytes.
pub xor_involutive : (bytes : Bytes) → xor (xor bytes) ≡ bytes
unfolding xor
xor_involutive bytes = xor_from_involutive 0 bytes

key_byte-lt : (i : ℕ) → key_byte i < 2 ^ 8
unfolding key_byte
key_byte-lt i = ground arith

xor_from-bytes : (i : ℕ) (bytes : Bytes) → All IsByte bytes → All IsByte (xor_from i bytes)
unfolding xor_from
xor_from-bytes i [] h = tt
xor_from-bytes i (b ∷ r) h =
    (bit_xor-lt 8 b (key_byte i) (omega arith) (key_byte-lt i), xor_from-bytes (i + 1) r h.1)

pub xor-bytes : (bytes : Bytes) → All IsByte bytes → All IsByte (xor bytes)
unfolding xor
xor-bytes bytes h = xor_from-bytes 0 bytes h

base64_value-base64_char : (v : ℕ) → v < 64 → base64_value (base64_char v) ≡ some v
unfolding base64_char base64_value
base64_value-base64_char v h = ground arith

-- No character of the alphabet is the padding.
base64_char-ne-pad : (v : ℕ) → v < 64 → (base64_char v == b'=') ≡ false
unfolding base64_char
base64_char-ne-pad v h = ground arith

group_back :
    (a b c : ℕ)
    → IsByte a
    → IsByte b
    → IsByte c
    → full_group
        (base64_char (a / 4))
        (base64_char (a % 4 * 16 + b / 16))
        (base64_char (b % 16 * 4 + c / 64))
        (base64_char (c % 64))
      ≡ some (a ∷ b ∷ c ∷ [])
unfolding full_group
group_back a b c ha hb hc =
    rw
      (
        base64_value-base64_char (a / 4) (omega arith),
        base64_value-base64_char (a % 4 * 16 + b / 16) (omega arith),
        base64_value-base64_char (b % 16 * 4 + c / 64) (omega arith),
        base64_value-base64_char (c % 64) (omega arith),
      )
      (ground arith)

two_back :
    (a b : ℕ)
    → IsByte a
    → IsByte b
    → two_byte_group
        (base64_char (a / 4))
        (base64_char (a % 4 * 16 + b / 16))
        (base64_char (b % 16 * 4))
      ≡ some (a ∷ b ∷ [])
unfolding two_byte_group
two_back a b ha hb =
    rw
      (
        base64_value-base64_char (a / 4) (omega arith),
        base64_value-base64_char (a % 4 * 16 + b / 16) (omega arith),
        base64_value-base64_char (b % 16 * 4) (omega arith),
      )
      (ground arith)

one_back :
    (a : ℕ)
    → IsByte a
    → one_byte_group (base64_char (a / 4)) (base64_char (a % 4 * 16)) ≡ some (a ∷ [])
unfolding one_byte_group
one_back a ha =
    rw
      (
        base64_value-base64_char (a / 4) (omega arith),
        base64_value-base64_char (a % 4 * 16) (omega arith),
      )
      (ground arith)

-- Decoding gives back whatever bytes were encoded.
pub b64decode-b64encode :
    (bytes : Bytes) → All IsByte bytes → b64decode (b64encode bytes) ≡ some bytes
unfolding b64decode b64encode
b64decode-b64encode [] h = refl
b64decode-b64encode (a ∷ []) h = one_back a h.0
b64decode-b64encode (a ∷ b ∷ []) h =
    rw (base64_char-ne-pad (b % 16 * 4) (omega arith)) (two_back a b h.0 h.1.0)
b64decode-b64encode (a ∷ b ∷ c ∷ rest) h =
    rw (base64_char-ne-pad (c % 64) (omega arith))
      (rw (group_back a b c h.0 h.1.0 h.1.1.0, b64decode-b64encode rest h.1.1.1))

base64_char_bounds : (v : ℕ) → v < 64 → (b'+' ≤ base64_char v) × (base64_char v ≤ b'z')
unfolding base64_char
base64_char_bounds v h = ground arith

abbrev pub IsPrintable : ℕ → Type 0
IsPrintable c = (32 ≤ c) × (c ≤ 126)

-- Encoded data is printable ASCII, so it holds no line break.
pub b64encode-IsPrintable : (bytes : Bytes) → All IsByte bytes → All IsPrintable (b64encode bytes)
unfolding b64encode
b64encode-IsPrintable [] h = tt
b64encode-IsPrintable (a ∷ []) h =
    omega (arith, base64_char_bounds (a / 4), base64_char_bounds (a % 4 * 16))
b64encode-IsPrintable (a ∷ b ∷ []) h = omega (
  arith,
  base64_char_bounds (a / 4),
  base64_char_bounds (a % 4 * 16 + b / 16),
  base64_char_bounds (b % 16 * 4),
)
b64encode-IsPrintable (a ∷ b ∷ c ∷ rest) h = (
  omega (arith, base64_char_bounds (a / 4)),
  (
    omega (arith, base64_char_bounds (a % 4 * 16 + b / 16)),
    (
      omega (arith, base64_char_bounds (b % 16 * 4 + c / 64)),
      (omega (arith, base64_char_bounds (c % 64)), b64encode-IsPrintable rest h.1.1.1),
    ),
  ),
)
