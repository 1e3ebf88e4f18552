-- ===== src/Protocol/Crc.antt =====
-- `crc16` of protocol.py: the CRC of the legacy serializer, bit by bit. `data` is a sequence of
-- bytes; the register starts at 0x9966 and stays within 16 bits.
pub mod Detect
use ha_aiper_ble.Prelude.{ℕ, zero, suc, ◌/◌, ◌%◌, ◌^◌, bit_xor, List, [], ◌∷◌, ◌==◌, if◌then◌else◌}
use ha_aiper_ble.Prelude.Text.{Bytes}

-- (crc >> 1) ^ 0xA001 if crc & 1 else crc >> 1
unfoldable pub shift_bit : ℕ → ℕ
shift_bit crc = if crc % 2 == 1 then bit_xor (crc / 2) 0xA001 else crc / 2

-- for _ in range(n): crc = ...
unfoldable pub shift_bits : ℕ → ℕ → ℕ
unfolding shift_bit
shift_bits zero crc = crc
shift_bits (suc n) crc = shift_bits n (shift_bit crc)

-- the body of the loop over the bytes
unfoldable pub crc_byte : ℕ → ℕ → ℕ
unfolding shift_bits
crc_byte crc byte = shift_bits 8 (bit_xor crc byte)

unfoldable pub crc_from : ℕ → Bytes → ℕ
unfolding crc_byte
crc_from crc [] = crc
crc_from crc (byte ∷ rest) = crc_from (crc_byte crc byte) rest

-- crc & 0xFFFF
unfoldable pub crc16 : Bytes → ℕ
unfolding crc_from
crc16 bytes = crc_from 0x9966 bytes % 2 ^ 16
