-- ===== src/Ll/Whiten.antt =====
-- BLE data whitening: src/ll/whiten.rs.
pub mod Stream
pub mod Laws
use nrf_ble.Base.{ℕ, zero, suc, ◌+◌, ◌*◌, ◌/◌, ◌%◌, ◌^◌, bit_and, bit_or, bit_xor}
use nrf_ble.Base.{List, [], ◌∷◌}

unfoldable pub whitening_init : ℕ → ℕ
whitening_init channel = bit_or 0x40 (bit_and channel 0x3F)

-- `(lfsr >> 6) as u8 & 1`
unfoldable pub key_bit : ℕ → ℕ
key_bit lfsr = bit_and (lfsr / 2 ^ 6 % 256) 1

-- The update of the shift register; `lfsr << 1` wraps at 16 bits.
unfoldable pub next_lfsr : ℕ → ℕ
next_lfsr lfsr =
    let feedback = bit_and (bit_xor (lfsr / 2 ^ 6) (lfsr / 2 ^ 3)) 1 in
    bit_and (bit_or (lfsr * 2 % 2 ^ 16) feedback) 0x7F

-- The inner loop at bit `i`, with `left` rounds to go: the output byte and the register.
unfoldable pub whiten_bits : ℕ → ℕ → ℕ → ℕ → ℕ → ℕ × ℕ
whiten_bits zero i byte out lfsr = (out, lfsr)
whiten_bits (suc left) i byte out lfsr =
    let data_bit = bit_and (byte / 2 ^ i) 1 in
    let mixed = bit_xor data_bit (key_bit lfsr) * 2 ^ i % 256 in
    whiten_bits left (i + 1) byte (bit_or out mixed) (next_lfsr lfsr)

-- The outer loop over the bytes that are left.
unfoldable pub whiten_loop : List ℕ → ℕ → List ℕ
whiten_loop [] lfsr = []
whiten_loop (byte ∷ rest) lfsr =
    let (out, lfsr') = whiten_bits 8 0 byte 0 lfsr in out ∷ whiten_loop rest lfsr'

unfoldable pub whiten : List ℕ → ℕ → List ℕ
whiten buf channel = whiten_loop buf (whitening_init channel)
