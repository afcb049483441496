-- ===== src/Base/Bits/Xor.antt =====
-- The exclusive or is commutative and its own inverse.
use Prim.Native.Nat.{ℕ, zero, suc, ◌+◌, ◌/◌, ◌%◌, ◌^◌, ◌≤◌, ◌<◌, bit_xor}
use mathlib.Core.Path.{◌≡◌, sym, ap, ◌∙◌}
use native.Mathlib.Nat.{pow-suc}
use native.Mathlib.Omega.{arith}
use nrf_ble.Base.Bits.Step.{bit_xor_step}
use nrf_ble.Base.Bits.Fields.{zero-bit_xor, bit_xor-zero}

-- The fuel bounds the operand that each step halves.
xor_comm_fuel : (n a b : ℕ) → a ≤ n → bit_xor a b ≡ bit_xor b a
xor_comm_fuel n zero b h = zero-bit_xor b ∙ sym (bit_xor-zero b)
xor_comm_fuel zero (suc a) b h = absurd (omega arith)
xor_comm_fuel (suc n) (suc a) b h = omega (
  arith,
  bit_xor_step (suc a) b,
  bit_xor_step b (suc a),
  xor_comm_fuel n (suc a / 2) (b / 2) (omega arith),
)

pub bit_xor_comm : (a b : ℕ) → bit_xor a b ≡ bit_xor b a
bit_xor_comm a b = xor_comm_fuel a a b (omega arith)

xor_halves : (a b : ℕ) → bit_xor a b / 2 ≡ bit_xor (a / 2) (b / 2)
xor_halves a b = omega (arith, bit_xor_step a b)

pub xor_parity : (a b : ℕ) → bit_xor a b % 2 ≡ (a % 2 + b % 2) % 2
xor_parity a b = omega (arith, bit_xor_step a b)

xor_cancel_fuel : (n a b : ℕ) → a ≤ n → bit_xor a (bit_xor a b) ≡ b
xor_cancel_fuel n zero b h = zero-bit_xor _ ∙ zero-bit_xor b
xor_cancel_fuel zero (suc a) b h = absurd (omega arith)
xor_cancel_fuel (suc n) (suc a) b h = omega (
  arith,
  bit_xor_step (suc a) (bit_xor (suc a) b),
  xor_parity (suc a) b,
  ap (λ (t : ℕ). bit_xor (suc a / 2) t) (xor_halves (suc a) b),
  xor_cancel_fuel n (suc a / 2) (b / 2) (omega arith),
)

-- Applying the same mask twice gives the value back.
pub bit_xor_cancel : (a b : ℕ) → bit_xor a (bit_xor a b) ≡ b
bit_xor_cancel a b = xor_cancel_fuel a a b (omega arith)

pub bit_xor_cancel_right : (a b : ℕ) → bit_xor (bit_xor b a) a ≡ b
bit_xor_cancel_right a b =
    bit_xor_comm (bit_xor b a) a
    ∙ ap (λ (t : ℕ). bit_xor a t) (bit_xor_comm b a)
    ∙ bit_xor_cancel a b

pub bit_xor_injective : (a b c : ℕ) → bit_xor b a ≡ bit_xor c a → b ≡ c
bit_xor_injective a b c h =
    sym (bit_xor_cancel_right a b) ∙ ap (λ (t : ℕ). bit_xor t a) h ∙ bit_xor_cancel_right a c

pub bit_xor_self : (a : ℕ) → bit_xor a a ≡ 0
bit_xor_self a = ap (λ (t : ℕ). bit_xor a t) (sym (bit_xor-zero a)) ∙ bit_xor_cancel a 0

-- The result is no wider than the operands.
pub bit_xor-lt : (k a b : ℕ) → a < 2 ^ k → b < 2 ^ k → bit_xor a b < 2 ^ k
bit_xor-lt zero a b ha hb =
    let ea : a ≡ 0 = omega arith in let eb : b ≡ 0 = omega arith in rw (ea, eb) (omega arith)
bit_xor-lt (suc k) a b ha hb = omega (
  arith,
  bit_xor_step a b,
  pow-suc 2 k,
  bit_xor-lt k (a / 2) (b / 2) (omega (arith, pow-suc 2 k)) (omega (arith, pow-suc 2 k)),
)
