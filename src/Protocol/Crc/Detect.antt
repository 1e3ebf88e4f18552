-- ===== src/Protocol/Crc/Detect.antt =====
-- What `crc16` promises of corrupted data.
use ha_aiper_ble.Prelude.{
  ℕ, zero, suc, ◌/◌, ◌^◌, ◌≤◌, ◌<◌, bit_xor, ◌≡◌, ◌≢◌, refl, sym, ap, ◌∙◌, [], ◌∷◌, ◌++◌, All,
  All-append, arith,
}
use ha_aiper_ble.Prelude.Bits.{bit_xor_cancel, bit_xor_comm, bit_xor-lt, halves, halves-bit_xor}
use ha_aiper_ble.Prelude.Text.{Bytes}
use ha_aiper_ble.Protocol.Crc.{shift_bit, shift_bits, crc_byte, crc_from, crc16}

abbrev pub IsByte : ℕ → Type 0
IsByte b = b < 256

shift_bit-lt : (crc : ℕ) → crc < 2 ^ 16 → shift_bit crc < 2 ^ 16
unfolding shift_bit
shift_bit-lt crc h = ground (arith, bit_xor-lt 16 (crc / 2) 0xA001)

shift_bits-lt : (n crc : ℕ) → crc < 2 ^ 16 → shift_bits n crc < 2 ^ 16
unfolding shift_bits
shift_bits-lt zero crc h = h
shift_bits-lt (suc n) crc h = shift_bits-lt n (shift_bit crc) (shift_bit-lt crc h)

crc_byte-lt : (crc byte : ℕ) → crc < 2 ^ 16 → IsByte byte → crc_byte crc byte < 2 ^ 16
unfolding crc_byte
crc_byte-lt crc byte h b =
    shift_bits-lt 8 (bit_xor crc byte) (bit_xor-lt 16 crc byte h (omega arith))

pub crc_from-lt :
    (crc : ℕ) (bytes : Bytes) → crc < 2 ^ 16 → All IsByte bytes → crc_from crc bytes < 2 ^ 16
unfolding crc_from
crc_from-lt crc [] h bs = h
crc_from-lt crc (b ∷ r) h bs = crc_from-lt (crc_byte crc b) r (crc_byte-lt crc b h bs.0) bs.1

-- The polynomial sets the top bit of a register that was shifted.
top_bit : (x : ℕ) → x < 2 ^ 15 → 2 ^ 15 ≤ bit_xor x 0xA001
top_bit x h =
    let low : halves 15 x ≡ 0 = omega arith in
    omega (arith, halves-bit_xor 15 x 0xA001, ap (λ (a : ℕ). bit_xor a 1) low)

shift_bit_injective : (c d : ℕ) → c < 2 ^ 16 → d < 2 ^ 16 → shift_bit c ≡ shift_bit d → c ≡ d
unfolding shift_bit
shift_bit_injective c d hc hd e = ground (
  arith,
  top_bit (c / 2),
  top_bit (d / 2),
  bit_xor_cancel (c / 2) 0xA001,
  bit_xor_cancel (d / 2) 0xA001,
)

shift_bits_injective :
    (n c d : ℕ) → c < 2 ^ 16 → d < 2 ^ 16 → shift_bits n c ≡ shift_bits n d → c ≡ d
unfolding shift_bits
shift_bits_injective zero c d hc hd e = e
shift_bits_injective (suc n) c d hc hd e =
    shift_bit_injective c d hc hd
      (shift_bits_injective n (shift_bit c) (shift_bit d) (shift_bit-lt c hc) (shift_bit-lt d hd) e)

bit_xor_right_injective : (c x y : ℕ) → bit_xor c x ≡ bit_xor c y → x ≡ y
bit_xor_right_injective c x y e = omega (
  arith,
  bit_xor_cancel x c,
  bit_xor_cancel y c,
  ap (λ (a : ℕ). bit_xor a c) (bit_xor_comm x c ∙ e ∙ bit_xor_comm c y),
)

bit_xor_left_injective : (x c d : ℕ) → bit_xor c x ≡ bit_xor d x → c ≡ d
bit_xor_left_injective x c d e =
    omega (arith, bit_xor_cancel c x, bit_xor_cancel d x, ap (λ (a : ℕ). bit_xor a x) e)

module _ {byte : ℕ} (b : IsByte byte) where
  crc_byte_injective :
      (c d : ℕ) → c < 2 ^ 16 → d < 2 ^ 16 → crc_byte c byte ≡ crc_byte d byte → c ≡ d
  unfolding crc_byte
  crc_byte_injective c d hc hd e = bit_xor_left_injective byte c d (
      shift_bits_injective 8 (bit_xor c byte) (bit_xor d byte)
        (bit_xor-lt 16 c byte hc (omega arith)) (bit_xor-lt 16 d byte hd (omega arith)) e)

crc_byte_sees : (c x y : ℕ) → c < 2 ^ 16 → IsByte x → IsByte y → crc_byte c x ≡ crc_byte c y → x ≡ y
unfolding crc_byte
crc_byte_sees c x y hc hx hy e = bit_xor_right_injective c x y (
    shift_bits_injective 8 (bit_xor c x) (bit_xor c y) (bit_xor-lt 16 c x hc (omega arith))
      (bit_xor-lt 16 c y hc (omega arith)) e)

crc_from_injective :
    (bytes : Bytes) (c d : ℕ)
    → All IsByte bytes
    → c < 2 ^ 16
    → d < 2 ^ 16
    → crc_from c bytes ≡ crc_from d bytes
    → c ≡ d
unfolding crc_from
crc_from_injective [] c d bs hc hd e = e
crc_from_injective (b ∷ r) c d bs hc hd e = crc_byte_injective bs.0 c d hc hd (
    crc_from_injective r (crc_byte c b) (crc_byte d b) bs.1 (crc_byte-lt c b hc bs.0)
      (crc_byte-lt d b hd bs.0) e)

crc_from-append : (c : ℕ) (p r : Bytes) → crc_from c (p ++ r) ≡ crc_from (crc_from c p) r
unfolding crc_from
crc_from-append c [] r = refl
crc_from-append c (b ∷ p) r = crc_from-append (crc_byte c b) p r

-- On bytes the final mask drops nothing.
pub crc16-eq-crc_from : (bytes : Bytes) → All IsByte bytes → crc16 bytes ≡ crc_from 0x9966 bytes
unfolding crc16
crc16-eq-crc_from bytes bs = omega (arith, crc_from-lt 0x9966 bytes (omega arith) bs)

-- A single corrupted byte, anywhere in the data, always changes the checksum: two messages of
-- bytes that differ in exactly one byte have different checksums.
pub crc16_detects_byte :
    (before after : Bytes) (x y : ℕ)
    → All IsByte before
    → All IsByte after
    → IsByte x
    → IsByte y
    → x ≢ y
    → crc16 (before ++ x ∷ after) ≢ crc16 (before ++ y ∷ after)
unfolding crc_from
crc16_detects_byte before after x y hb ha hx hy ne e =
    let c : ℕ = crc_from 0x9966 before in
    let hc : c < 2 ^ 16 = crc_from-lt 0x9966 before (omega arith) hb in
    ne (
      crc_byte_sees c x y hc hx hy (
        crc_from_injective after (crc_byte c x) (crc_byte c y) ha (crc_byte-lt c x hc hx)
          (crc_byte-lt c y hc hy) (sym (message x hx) ∙ e ∙ message y hy)))
  where
    message :
        (z : ℕ)
        → IsByte z
        → crc16 (before ++ z ∷ after) ≡ crc_from (crc_byte (crc_from 0x9966 before) z) after
    message z hz =
        crc16-eq-crc_from (before ++ z ∷ after) (All-append IsByte before (z ∷ after) hb (hz, ha))
        ∙ crc_from-append 0x9966 before (z ∷ after)
