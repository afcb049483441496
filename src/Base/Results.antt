-- ===== src/Base/Results.antt =====
-- Rust's `Result`, with a third outcome: a panic (an index, slice or copy out of range).
use Prim.Native.Nat.{ℕ, ◌+◌, ◌-◌}
use mathlib.Core.Bool.{Bool, true, false, ◌&&◌}
use mathlib.Core.List.{List, ◌++◌}
use mathlib.Core.Option.{Option, none, some}
use nrf_ble.Base.Tests.{leb, ◌==◌, if◌then◌else◌}
use nrf_ble.Base.Lists.{length, take, drop, set, get_elem?}

-- src/error.rs
pub data Error : Type 0 where
  buffer_too_small invalid_pdu invalid_length invalid_channel invalid_address : Error
  invalid_param already_running not_running crc_mismatch invalid_ad : Error

pub data Result {ℓ} (E : Type 0) (A : Type ℓ) : Type ℓ where
  ok : A → Result E A
  err : E → Result E A
  panic : Result E A

infixl 5 ◌>>=◌ ◌>>◌
abbrev pub ◌>>=◌ {ℓ κ} :
    {E : Type 0} {A : Type ℓ} {B : Type κ} → Result E A → (A → Result E B) → Result E B
ok a >>= f = f a
err e >>= f = err e
panic >>= f = panic

abbrev pub ◌>>◌ {ℓ} : {E : Type 0} {B : Type ℓ} → Result E (Unit {0}) → Result E B → Result E B
m >> k = m >>= λ _. k

-- An early return of the error unless the test passes.
abbrev pub guard : {E : Type 0} → Bool → E → Result E (Unit {0})
guard true e = ok tt
guard false e = err e

-- `xs[i]`
abbrev pub index {ℓ} : {E : Type 0} {A : Type ℓ} → List A → ℕ → Result E A
index xs i = elim (get_elem? xs i) [ none ↦ panic | some x ↦ ok x ]

-- `&xs[a..b]`
abbrev pub slice {ℓ} : {E : Type 0} {A : Type ℓ} → List A → ℕ → ℕ → Result E (List A)
slice xs a b = if leb a b && leb b (length xs) then ok (take (b - a) (drop a xs)) else panic

-- `xs[a..b].copy_from_slice(src)`
abbrev pub copy_to {ℓ} : {E : Type 0} {A : Type ℓ} → List A → ℕ → ℕ → List A → Result E (List A)
copy_to xs a b src =
    if leb a b && leb b (length xs) && (length src == b - a)
    then ok (take a xs ++ src ++ drop b xs)
    else panic

-- `xs[i] = v`
abbrev pub put {ℓ} : {E : Type 0} {A : Type ℓ} → List A → ℕ → A → Result E (List A)
put xs i v = if leb (i + 1) (length xs) then ok (set xs i v) else panic

-- A result without errors where one with errors is wanted.
abbrev pub lift {ℓ} : {E : Type 0} {A : Type ℓ} → Result ⊥ A → Result E A
lift (ok a) = ok a
lift (err e) = absurd e
lift panic = panic

-- `Option::ok_or`
abbrev pub ok_or {ℓ} : {E : Type 0} {A : Type ℓ} → Option A → E → Result E A
ok_or none e = err e
ok_or (some a) e = ok a

-- `Option::unwrap`, and `Result::unwrap` of what can only fail or not.
abbrev pub unwrap {ℓ} : {E : Type 0} {A : Type ℓ} → Option A → Result E A
unwrap none = panic
unwrap (some a) = ok a
