-- ===== src/Base/Tables.antt =====
-- Facts about every number below a bound, checked by evaluation.
use Prim.Native.Nat.{ℕ, zero, suc, ◌<◌}
use mathlib.Core.Path.{◌≡◌, refl}
use mathlib.Core.Bool.{Bool, true, false, ◌&&◌}
use native.Mathlib.Omega.{arith}
use nrf_ble.Base.Tests.{bit, ◌==◌}

unfoldable pub holds_below : ℕ → (ℕ → Bool) → Bool
holds_below zero test = true
holds_below (suc n) test = test n && holds_below n test

pub holds_below_at :
    (n : ℕ) (test : ℕ → Bool) (x : ℕ) → holds_below n test ≡ true → x < n → test x ≡ true
unfolding holds_below
holds_below_at zero test x h lt = absurd (omega arith)
holds_below_at (suc n) test x h lt = ground (arith, holds_below_at n test x)

-- The same for a truth value.
unfoldable pub for_bools : (Bool → Bool) → Bool
for_bools test = test true && test false

pub for_bools_at : (test : Bool → Bool) (b : Bool) → for_bools test ≡ true → test b ≡ true
unfolding for_bools
for_bools_at test true h = ground arith
for_bools_at test false h = ground arith

-- Equal bits are equal truth values.
pub bit_injective : (a b : Bool) → (bit a == bit b) ≡ true → a ≡ b
bit_injective true true h = refl
bit_injective true false h = cc
bit_injective false true h = cc
bit_injective false false h = refl
