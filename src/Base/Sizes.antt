-- ===== src/Base/Sizes.antt =====
-- Writes that are in range keep the size of what they write to.
use Prim.Native.Nat.{ℕ, ◌+◌, ◌-◌, ◌≤◌, ◌<◌}
use mathlib.Core.Path.{◌≡◌, refl}
use mathlib.Core.Bool.{Bool, true, false}
use mathlib.Core.List.{List, ◌++◌}
use native.Mathlib.Omega.{arith}
use nrf_ble.Base.Tests.{le→leb, eq→==, if◌then◌else◌}
use nrf_ble.Base.Lists.{
  length, take, drop, set, length-append, length-drop, length-take, length-set,
}
use nrf_ble.Base.Results.{ok, copy_to, put}

module _ {ℓ} {A : Type ℓ} where
  pub put_kept :
      {E : Type 0} (xs : List A) (i : ℕ) (v : A)
      → i < length xs
      → (ys : List A) × (put {E = E} xs i v ≡ ok ys) × (length ys ≡ length xs)
  put_kept xs i v h = (set xs i v, rw (le→leb (i + 1) (length xs) (omega arith)), length-set xs i v)

  pub copy_to_kept :
      {E : Type 0} (xs : List A) (a b : ℕ) (src : List A)
      → b ≡ a + length src
      → b ≤ length xs
      → (ys : List A) × (copy_to {E = E} xs a b src ≡ ok ys) × (length ys ≡ length xs)
  copy_to_kept xs a b src hb h =
      let n = length-append (take a xs ++ src) (drop b xs) in
      let m = length-append (take a xs) src in
      let k = length-take a xs in
      let l = length-drop b xs in
      (
        take a xs ++ src ++ drop b xs,
        rw (
          le→leb a b (omega arith),
          le→leb b (length xs) h,
          eq→== (length src) (b - a) (omega arith),
        ),
        omega arith,
      )

-- To split on a test where it stands.
pub if_cases {ℓ κ} :
    {A : Type ℓ} (P : A → Type κ) (b : Bool) (x y : A)
    → (b ≡ true → P x)
    → (b ≡ false → P y)
    → P (if b then x else y)
if_cases P true x y h k = h refl
if_cases P false x y h k = k refl

pub if_false {ℓ} : {A : Type ℓ} (b : Bool) (x y : A) → b ≡ false → (if b then x else y) ≡ y
if_false true x y h = cc
if_false false x y h = refl

pub if_true {ℓ} : {A : Type ℓ} (b : Bool) (x y : A) → b ≡ true → (if b then x else y) ≡ x
if_true true x y h = refl
if_true false x y h = cc
