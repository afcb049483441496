-- ===== src/Ll/Crc/Detect.antt =====
-- The register after a byte determines the register before it and the byte, so that a corruption
-- inside one byte of a packet is always detected.
use nrf_ble.Base.{ℕ, zero, suc, ◌+◌, ◌*◌, ◌/◌, ◌^◌, ◌≤◌, ◌<◌, bit_xor}
use nrf_ble.Base.{◌≡◌, sym, ◌∙◌, arith, List, [], ◌∷◌, ◌++◌, All, IsByte}
use nrf_ble.Base.Bits.{bit_xor_fields, bit_xor_injective, bit_xor_comm, bit_xor-lt, zero-bit_xor}
use nrf_ble.Ll.Crc.{shift_bit, shift_bits, crc_byte, crc_loop, crc_reflected_poly}
use nrf_ble.Ll.Crc.Residue.{odd_bit, shift_bit-lt, crc_byte-lt, crc_byte-shift_bits}

-- The polynomial has its top bit set.
poly_top : (a : ℕ) → a < 2 ^ 23 → 2 ^ 23 ≤ bit_xor a crc_reflected_poly
poly_top a h =
    let fields = bit_xor_fields 23 0 a 1 0x5A6000 h (omega arith) in
    let left : 0 * 2 ^ 23 + a ≡ a = omega arith in
    let e : bit_xor a crc_reflected_poly ≡ bit_xor 0 1 * 2 ^ 23 + bit_xor a 0x5A6000 =
      rw left at fields in
    omega (arith, e, zero-bit_xor 1)

shift_bit_injective : (a b : ℕ) → a < 2 ^ 24 → b < 2 ^ 24 → shift_bit a ≡ shift_bit b → a ≡ b
unfolding shift_bit
shift_bit_injective a b ha hb h = ground (
  arith,
  odd_bit a,
  odd_bit b,
  poly_top (a / 2) (omega arith),
  poly_top (b / 2) (omega arith),
  bit_xor_injective crc_reflected_poly (a / 2) (b / 2),
)

shift_bits_injective :
    (n a b : ℕ) → a < 2 ^ 24 → b < 2 ^ 24 → shift_bits n a ≡ shift_bits n b → a ≡ b
unfolding shift_bits
shift_bits_injective zero a b ha hb h = h
shift_bits_injective (suc n) a b ha hb h =
    shift_bit_injective a b ha hb
      (shift_bits_injective n (shift_bit a) (shift_bit b) (shift_bit-lt a ha) (shift_bit-lt b hb) h)

crc_byte_mix :
    (c d x y : ℕ)
    → c < 2 ^ 24
    → d < 2 ^ 24
    → x < 256
    → y < 256
    → crc_byte c x ≡ crc_byte d y
    → bit_xor c x ≡ bit_xor d y
crc_byte_mix c d x y hc hd hx hy h =
    shift_bits_injective 8 (bit_xor c x) (bit_xor d y) (bit_xor-lt 24 c x hc (omega arith))
      (bit_xor-lt 24 d y hd (omega arith))
      (sym (crc_byte-shift_bits c x hc hx) ∙ h ∙ crc_byte-shift_bits d y hd hy)

pub crc_byte_injective :
    (c d x : ℕ) → c < 2 ^ 24 → d < 2 ^ 24 → x < 256 → crc_byte c x ≡ crc_byte d x → c ≡ d
crc_byte_injective c d x hc hd hx h = bit_xor_injective x c d (crc_byte_mix c d x x hc hd hx hx h)

crc_loop_injective :
    (xs : List ℕ) (c d : ℕ)
    → All IsByte xs
    → c < 2 ^ 24
    → d < 2 ^ 24
    → crc_loop c xs ≡ crc_loop d xs
    → c ≡ d
unfolding crc_loop
crc_loop_injective [] c d hx hc hd h = h
crc_loop_injective (x ∷ xs) c d hx hc hd h = crc_byte_injective c d x hc hd hx.0 (
    crc_loop_injective xs (crc_byte c x) (crc_byte d x) hx.1 (crc_byte-lt c x hc hx.0)
      (crc_byte-lt d x hd hx.0) h)

-- Two packets that differ in one byte have different CRCs, from any register.
pub crc_loop_one_byte :
    (before after : List ℕ) (c x y : ℕ)
    → All IsByte before
    → All IsByte after
    → c < 2 ^ 24
    → x < 256
    → y < 256
    → crc_loop c (before ++ x ∷ after) ≡ crc_loop c (before ++ y ∷ after)
    → x ≡ y
unfolding crc_loop
crc_loop_one_byte [] after c x y hb ha hc hx hy h =
    let same : crc_byte c x ≡ crc_byte c y =
      crc_loop_injective after (crc_byte c x) (crc_byte c y) ha (crc_byte-lt c x hc hx)
        (crc_byte-lt c y hc hy) h in
    let mixed = crc_byte_mix c c x y hc hc hx hy same in
    bit_xor_injective c x y (bit_xor_comm x c ∙ mixed ∙ bit_xor_comm c y)
crc_loop_one_byte (b ∷ before) after c x y hb ha hc hx hy h =
    crc_loop_one_byte before after (crc_byte c b) x y hb.1 ha (crc_byte-lt c b hc hb.0) hx hy h
