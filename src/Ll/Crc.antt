-- ===== src/Ll/Crc.antt =====
-- The BLE CRC-24: src/ll/crc.rs.
pub mod Residue
pub mod Detect
pub mod Packets
use nrf_ble.Base.{ℕ, zero, suc, ◌+◌, ◌*◌, ◌/◌, ◌%◌, ◌^◌, bit_and, bit_or, bit_xor}
use nrf_ble.Base.{Bool, false, List, [], ◌∷◌, length, ltb, ◌==◌, if◌then◌else◌}
use nrf_ble.Base.Results.{Result, ok, err, Error, buffer_too_small, put, ◌>>=◌}

abbrev pub crc_init : ℕ
crc_init = 0x555555

abbrev pub crc_reflected_poly : ℕ
crc_reflected_poly = 0xDA6000

-- The loop of `reflect` with `left` rounds to go; `r << 1` wraps at 32 bits.
unfoldable pub reflect_loop : ℕ → ℕ → ℕ → ℕ
reflect_loop zero v r = r
reflect_loop (suc left) v r = reflect_loop left (v / 2) (bit_or (r * 2 % 2 ^ 32) (bit_and v 1))

unfoldable pub reflect : ℕ → ℕ → ℕ
reflect value bits = reflect_loop bits value 0

-- One round of the inner loop: shift out the lowest bit.
unfoldable pub shift_bit : ℕ → ℕ
shift_bit crc = if bit_and crc 1 == 0 then crc / 2 else bit_xor (crc / 2) crc_reflected_poly

-- The inner loop with `left` rounds to go.
unfoldable pub shift_bits : ℕ → ℕ → ℕ
shift_bits zero crc = crc
shift_bits (suc left) crc = shift_bits left (shift_bit crc)

-- The body of the outer loop.
unfoldable pub crc_byte : ℕ → ℕ → ℕ
crc_byte crc b = bit_and (shift_bits 8 (bit_xor crc b)) 0xFFFFFF

-- The outer loop over the bytes that are left.
unfoldable pub crc_loop : ℕ → List ℕ → ℕ
crc_loop crc [] = crc
crc_loop crc (b ∷ rest) = crc_loop (crc_byte crc b) rest

unfoldable pub crc24_with_init : List ℕ → ℕ → ℕ
crc24_with_init data_bytes init = crc_loop (reflect (bit_and init 0xFFFFFF) 24) data_bytes

unfoldable pub crc24 : List ℕ → ℕ
crc24 data_bytes = crc24_with_init data_bytes crc_init

-- The result is `out` with its first three bytes overwritten.
unfoldable pub append_crc : List ℕ → List ℕ → Result Error (List ℕ)
append_crc pdu out = if ltb (length out) 3 then err buffer_too_small else (do
  let crc = crc24 pdu
  out ← put out 0 (crc % 256)
  out ← put out 1 (crc / 2 ^ 8 % 256)
  put out 2 (crc / 2 ^ 16 % 256))

unfoldable pub check : List ℕ → Bool
check pdu_with_crc = if ltb (length pdu_with_crc) 3 then false else crc24 pdu_with_crc == 0
