-- ===== src/Ll/Crc/Residue.antt =====
-- A PDU followed by its CRC leaves the residue zero, and no other three bytes do.
use nrf_ble.Base.{ℕ, zero, suc, ◌+◌, ◌*◌, ◌/◌, ◌%◌, ◌^◌, ◌<◌, bit_and, bit_xor}
use nrf_ble.Base.{◌≡◌, ap, ◌∙◌, arith}
use native.Mathlib.Nat.{pow-suc}
use nrf_ble.Base.Bits.{bit_and_mask, bit_xor_fields, bit_xor-zero, bit_xor_self, bit_xor-lt}
use nrf_ble.Ll.Crc.{shift_bit, shift_bits, crc_byte, crc_reflected_poly}

pub odd_bit : (a : ℕ) → bit_and a 1 ≡ a % 2
odd_bit a = bit_and_mask 1 a

pub shift_bit-lt : (a : ℕ) → a < 2 ^ 24 → shift_bit a < 2 ^ 24
unfolding shift_bit
shift_bit-lt a h =
    ground (arith, bit_xor-lt 24 (a / 2) crc_reflected_poly (omega arith) (omega arith))

pub shift_bits-lt : (n a : ℕ) → a < 2 ^ 24 → shift_bits n a < 2 ^ 24
unfolding shift_bits
shift_bits-lt zero a h = h
shift_bits-lt (suc n) a h = shift_bits-lt n (shift_bit a) (shift_bit-lt a h)

-- The final mask changes nothing: the register never leaves 24 bits.
pub crc_byte-shift_bits :
    (c b : ℕ) → c < 2 ^ 24 → b < 256 → crc_byte c b ≡ shift_bits 8 (bit_xor c b)
unfolding crc_byte
crc_byte-shift_bits c b hc hb =
    let small = shift_bits-lt 8 (bit_xor c b) (bit_xor-lt 24 c b hc (omega arith)) in
    omega (arith, bit_and_mask 24 (shift_bits 8 (bit_xor c b)))

pub crc_byte-lt : (c b : ℕ) → c < 2 ^ 24 → b < 256 → crc_byte c b < 2 ^ 24
crc_byte-lt c b hc hb =
    rw (crc_byte-shift_bits c b hc hb)
      (shift_bits-lt 8 (bit_xor c b) (bit_xor-lt 24 c b hc (omega arith)))

shift_bit_even : (q : ℕ) → shift_bit (q * 2) ≡ q
unfolding shift_bit
shift_bit_even q = ground (arith, odd_bit (q * 2))

double : (q n : ℕ) → q * 2 ^ suc n ≡ q * 2 ^ n * 2
double q n = omega (arith, ap (λ (t : ℕ). q * t) (pow-suc 2 n))

shift_bits_even : (n q : ℕ) → shift_bits n (q * 2 ^ n) ≡ q
unfolding shift_bits
shift_bits_even zero q = omega arith
shift_bits_even (suc n) q =
    ap (λ (t : ℕ). shift_bits n (shift_bit t)) (double q n)
    ∙ ap (shift_bits n) (shift_bit_even (q * 2 ^ n))
    ∙ shift_bits_even n q

-- A byte that equals the low byte of the register is shifted out whole.
pub crc_byte_low : (c : ℕ) → c < 2 ^ 24 → crc_byte c (c % 256) ≡ c / 256
crc_byte_low c h =
    let fields = bit_xor_fields 8 (c / 256) (c % 256) 0 (c % 256) (omega arith) (omega arith) in
    let left : c / 256 * 2 ^ 8 + c % 256 ≡ c = omega arith in
    let right : 0 * 2 ^ 8 + c % 256 ≡ c % 256 = omega arith in
    let e : bit_xor c (c % 256) ≡ bit_xor (c / 256) 0 * 2 ^ 8 + bit_xor (c % 256) (c % 256) =
      rw (left, right) at fields in
    let low : bit_xor c (c % 256) ≡ c / 256 * 2 ^ 8 =
      e ∙ rw (bit_xor-zero (c / 256), bit_xor_self (c % 256)) (omega arith) in
    crc_byte-shift_bits c (c % 256) h (omega arith)
    ∙ ap (shift_bits 8) low
    ∙ shift_bits_even 8 (c / 256)
