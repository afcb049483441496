-- ===== src/Base/Bits/Fields.antt =====
-- A bitwise operation acts on a high and a low field apart, and what follows for the masks and
-- shifts of packed bytes.
use Prim.Native.Nat.{ℕ, zero, suc, ◌+◌, ◌-◌, ◌*◌, ◌/◌, ◌%◌, ◌^◌, ◌≤◌, ◌<◌, min, max}
use Prim.Native.Nat.{bit_and, bit_or, bit_xor, bit_or-bitwise, bit_xor-bitwise}
use mathlib.Core.Path.{◌≡◌, refl, ap, ◌∙◌}
use native.Mathlib.Nat.{pow-suc, one-le-pow, mod-lt, div-add-mod}
use native.Mathlib.Omega.{arith}
use nrf_ble.Base.Bits.Step.{bit_or_step, bit_and_step, bit_xor_step}

double : (q k : ℕ) → q * 2 ^ suc k ≡ 2 * (q * 2 ^ k)
double q k = omega (arith, ap (λ (t : ℕ). q * t) (pow-suc 2 k))

-- An operation given by its effect on one digit.
module _ (op f : ℕ → ℕ → ℕ) (step : (a b : ℕ) → op a b ≡ op (a / 2) (b / 2) * 2 + f (a % 2) (b % 2))
    (none_set : op 0 0 ≡ 0) where
  op_fields :
      (k q r s t : ℕ)
      → r < 2 ^ k
      → t < 2 ^ k
      → op (q * 2 ^ k + r) (s * 2 ^ k + t) ≡ op q s * 2 ^ k + op r t
  op_fields zero q r s t hr ht =
      let er : r ≡ 0 = omega arith in
      let et : t ≡ 0 = omega arith in
      let left : q * 2 ^ 0 + 0 ≡ q = omega arith in
      let right : s * 2 ^ 0 + 0 ≡ s = omega arith in
      rw (er, et, left, right) (omega (arith, none_set))
  op_fields (suc k) q r s t hr ht =
      let upper = op_fields k q (r / 2) s (t / 2) (omega arith) (omega arith) in
      let left : (q * 2 ^ suc k + r) / 2 ≡ q * 2 ^ k + r / 2 = omega (arith, double q k) in
      let right : (s * 2 ^ suc k + t) / 2 ≡ s * 2 ^ k + t / 2 = omega (arith, double s k) in
      let left_bit : (q * 2 ^ suc k + r) % 2 ≡ r % 2 = omega (arith, double q k) in
      let right_bit : (s * 2 ^ suc k + t) % 2 ≡ t % 2 = omega (arith, double s k) in
      step (q * 2 ^ suc k + r) (s * 2 ^ suc k + t)
      ∙ rw (left, right, left_bit, right_bit, upper) (omega (arith, step r t, double (op q s) k))

  -- Where the other operand is zero, fuel bounding the number.
  op-zero_fuel : ((x : ℕ) → x < 2 → f x 0 ≡ x) → (n a : ℕ) → a ≤ n → op a 0 ≡ a
  op-zero_fuel keep n zero h = none_set
  op-zero_fuel keep zero (suc a) h = absurd (omega arith)
  op-zero_fuel keep (suc n) (suc a) h = omega (
    arith,
    step (suc a) 0,
    keep (suc a % 2) (omega arith),
    op-zero_fuel keep n (suc a / 2) (omega arith),
  )

  -- The same, where the operation loses every digit.
  op-zero_lost : ((x : ℕ) → f x 0 ≡ 0) → (n a : ℕ) → a ≤ n → op a 0 ≡ 0
  op-zero_lost lose n zero h = none_set
  op-zero_lost lose zero (suc a) h = absurd (omega arith)
  op-zero_lost lose (suc n) (suc a) h =
      let upper = op-zero_lost lose n (suc a / 2) (omega arith) in
      omega (arith, step (suc a) 0, upper, lose (suc a % 2))

zero-bit_or : (a : ℕ) → bit_or 0 a ≡ a
zero-bit_or a = omega (arith, bit_or-bitwise 0 a)

pub zero-bit_xor : (a : ℕ) → bit_xor 0 a ≡ a
zero-bit_xor a = omega (arith, bit_xor-bitwise 0 a)

-- The exclusive or, field by field.
pub bit_xor_fields :
    (k q r s t : ℕ)
    → r < 2 ^ k
    → t < 2 ^ k
    → bit_xor (q * 2 ^ k + r) (s * 2 ^ k + t) ≡ bit_xor q s * 2 ^ k + bit_xor r t
bit_xor_fields = op_fields bit_xor (λ x y. (x + y) % 2) bit_xor_step refl

pub bit_xor-zero : (a : ℕ) → bit_xor a 0 ≡ a
bit_xor-zero a =
    op-zero_fuel bit_xor (λ x y. (x + y) % 2) bit_xor_step refl (λ x h. omega arith) a a
      (omega arith)

pub bit_or-zero : (a : ℕ) → bit_or a 0 ≡ a
bit_or-zero a = op-zero_fuel bit_or max bit_or_step refl (λ x h. omega arith) a a (omega arith)

bit_and-zero : (a : ℕ) → bit_and a 0 ≡ 0
bit_and-zero a = op-zero_lost bit_and min bit_and_step refl (λ x. omega arith) a a (omega arith)

-- `r | (q << k)` is a sum when `r` fits `k` bits.
pub bit_or_low : (k q r : ℕ) → r < 2 ^ k → bit_or r (q * 2 ^ k) ≡ q * 2 ^ k + r
bit_or_low k q r h =
    let fields =
      op_fields bit_or max bit_or_step refl k 0 r q 0 h (omega (arith, one-le-pow k 2)) in
    let left : 0 * 2 ^ k + r ≡ r = omega arith in
    let right : q * 2 ^ k + 0 ≡ q * 2 ^ k = omega arith in
    let e : bit_or r (q * 2 ^ k) ≡ bit_or 0 q * 2 ^ k + bit_or r 0 = rw (left, right) at fields in
    e ∙ rw (zero-bit_or q, bit_or-zero r)

pub bit_or_high : (k q r : ℕ) → r < 2 ^ k → bit_or (q * 2 ^ k) r ≡ q * 2 ^ k + r
bit_or_high k q r h =
    let fields =
      op_fields bit_or max bit_or_step refl k q 0 0 r (omega (arith, one-le-pow k 2)) h in
    let left : q * 2 ^ k + 0 ≡ q * 2 ^ k = omega arith in
    let right : 0 * 2 ^ k + r ≡ r = omega arith in
    let e : bit_or (q * 2 ^ k) r ≡ bit_or q 0 * 2 ^ k + bit_or 0 r = rw (left, right) at fields in
    e ∙ rw (bit_or-zero q, zero-bit_or r)

low_mask_keeps : (k r : ℕ) → r < 2 ^ k → bit_and r (2 ^ k - 1) ≡ r
low_mask_keeps zero r h = omega (arith, bit_and-zero r)
low_mask_keeps (suc k) r h =
    let half : (2 ^ suc k - 1) / 2 ≡ 2 ^ k - 1 = omega (arith, pow-suc 2 k) in
    let low : (2 ^ suc k - 1) % 2 ≡ 1 = omega (arith, pow-suc 2 k, one-le-pow k 2) in
    bit_and_step r (2 ^ suc k - 1)
    ∙ rw (half, low, low_mask_keeps k (r / 2) (omega (arith, pow-suc 2 k))) (omega arith)

-- A mask of `k` low bits is the remainder by `2 ^ k`.
pub bit_and_mask : (k a : ℕ) → bit_and a (2 ^ k - 1) ≡ a % 2 ^ k
bit_and_mask k a =
    let r = a % 2 ^ k in
    let pos = one-le-pow k 2 in
    let fields =
      op_fields bit_and min bit_and_step refl k (a / 2 ^ k) r 0 (2 ^ k - 1) (mod-lt a (omega arith))
        (omega arith) in
    let left : a / 2 ^ k * 2 ^ k + a % 2 ^ k ≡ a = omega (arith, div-add-mod a (2 ^ k)) in
    let right : 0 * 2 ^ k + (2 ^ k - 1) ≡ 2 ^ k - 1 = omega arith in
    let e : bit_and a (2 ^ k - 1) ≡ bit_and (a / 2 ^ k) 0 * 2 ^ k + bit_and r (2 ^ k - 1) =
      rw (left, right) at fields in
    e
    ∙ omega (
      arith,
      ap (λ (t : ℕ). t * 2 ^ k) (bit_and-zero (a / 2 ^ k)),
      low_mask_keeps k r (mod-lt a (omega arith)),
    )
