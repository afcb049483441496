-- ===== src/Base/Slices.antt =====
-- Reads and writes of slices that are in range: none panics, and what each yields.
use Prim.Native.Nat.{ℕ, zero, suc, ◌+◌, ◌-◌, ◌≤◌, ◌<◌}
use mathlib.Core.Path.{◌≡◌, refl, ap, ◌∙◌, sym}
use mathlib.Core.List.{List, [], ◌∷◌, ◌++◌, append_assoc, append-nil}
use native.Mathlib.Omega.{arith}
use nrf_ble.Base.Tests.{le→leb, eq→==}
use nrf_ble.Base.Lists.{length, drop, set, length-append, length-drop, take-append, drop-append}
use nrf_ble.Base.Lists.{take, take_all, drop_all, drop-drop, length-take}
use nrf_ble.Base.Results.{ok, index, slice, copy_to, put}

module _ {ℓ} {A : Type ℓ} where
  -- What stands at a position in range.
  pub drop-cons :
      (i : ℕ) (xs : List A) → i < length xs → (x : A) × (drop i xs ≡ x ∷ drop (suc i) xs)
  drop-cons i [] h = absurd (omega arith)
  drop-cons zero (x ∷ xs) h = (x, refl)
  drop-cons (suc i) (x ∷ xs) h = drop-cons i xs (omega arith)

  set-append :
      (xs rest : List A) (x v : A) (i : ℕ)
      → length xs ≡ i
      → set (xs ++ x ∷ rest) i v ≡ xs ++ v ∷ rest
  set-append [] rest x v zero h = refl
  set-append [] rest x v (suc i) h = absurd (omega arith)
  set-append (y ∷ xs) rest x v zero h = absurd (omega arith)
  set-append (y ∷ xs) rest x v (suc i) h = ap (λ t. y ∷ t) (set-append xs rest x v i (omega arith))

module _ {ℓ} {E : Type 0} {A : Type ℓ} where
  pub slice-append :
      (xs ys zs : List A) (a b : ℕ)
      → length xs ≡ a
      → b ≡ a + length ys
      → slice {E = E} (xs ++ (ys ++ zs)) a b ≡ ok ys
  slice-append xs ys zs a b ha hb =
      let size = length-append xs (ys ++ zs) in
      let rest = length-append ys zs in
      rw (
        le→leb a b (omega arith),
        le→leb b (length (xs ++ (ys ++ zs))) (omega arith),
        drop-append a xs (ys ++ zs) ha,
        take-append (b - a) ys zs (omega arith),
      )

  pub slice_prefix : (ys zs : List A) (b : ℕ) → length ys ≡ b → slice {E = E} (ys ++ zs) 0 b ≡ ok ys
  slice_prefix ys zs b hb = slice-append [] ys zs 0 b refl (omega arith)

  pub slice_suffix :
      (xs ys : List A) (a b : ℕ)
      → length xs ≡ a
      → b ≡ length (xs ++ ys)
      → slice {E = E} (xs ++ ys) a b ≡ ok ys
  slice_suffix xs ys a b ha hb =
      let size = length-append xs ys in
      rw (
        le→leb a b (omega arith),
        le→leb b (length (xs ++ ys)) (omega arith),
        drop-append a xs ys ha,
        take_all (b - a) ys (omega arith),
      )

  -- A write behind what has been written already.
  pub copy_to-append :
      (xs rest src : List A) (a b : ℕ)
      → length xs ≡ a
      → b ≡ a + length src
      → length src ≤ length rest
      → copy_to {E = E} (xs ++ rest) a b src ≡ ok (xs ++ src ++ drop (length src) rest)
  copy_to-append xs rest src a b ha hb fits =
      let size = length-append xs rest in
      let behind : drop b (xs ++ rest) ≡ drop (length src) rest =
        ap (λ (k : ℕ). drop k (xs ++ rest)) hb
        ∙ sym (drop-drop (length src) a (xs ++ rest))
        ∙ ap (drop (length src)) (drop-append a xs rest ha) in
      rw (
        le→leb a b (omega arith),
        le→leb b (length (xs ++ rest)) (omega arith),
        eq→== (length src) (b - a) (omega arith),
        take-append a xs rest ha,
        behind,
      )

  pub put-append :
      (xs rest : List A) (x v : A) (i : ℕ)
      → length xs ≡ i
      → put {E = E} (xs ++ x ∷ rest) i v ≡ ok (xs ++ v ∷ rest)
  put-append xs rest x v i h =
      let size = length-append xs (x ∷ rest) in
      rw (le→leb (i + 1) (length (xs ++ x ∷ rest)) (omega arith), set-append xs rest x v i h)

-- A buffer that is filled from the front: `pre` has been written, and the rest is as before.
module _ {ℓ} {E : Type 0} {A : Type ℓ} (pre out : List A) (a b : ℕ) (size : length pre ≡ a) where
  pub copy_to_fill :
      (src : List A)
      → b ≡ a + length src
      → b ≤ length out
      → copy_to {E = E} (pre ++ drop a out) a b src ≡ ok (pre ++ src ++ drop b out)
  copy_to_fill src end room =
      let rest = length-drop a out in
      let behind : drop (length src) (drop a out) ≡ drop b out =
        drop-drop (length src) a out ∙ ap (λ (k : ℕ). drop k out) (sym end) in
      copy_to-append pre (drop a out) src a b size end (omega arith) ∙ rw behind

  pub put_fill :
      (v : A)
      → b ≡ a + 1
      → b ≤ length out
      → put {E = E} (pre ++ drop a out) a v ≡ ok (pre ++ (v ∷ []) ++ drop b out)
  put_fill v end room =
      let next : suc a ≡ b = omega arith in
      let (x, cut) = drop-cons a out (omega arith) in
      ap (λ t. put (pre ++ t) a v) cut
      ∙ put-append pre (drop (suc a) out) x v a size
      ∙ ap (λ (k : ℕ). ok (pre ++ v ∷ drop k out)) next
      ∙ ap ok (sym (append_assoc pre (v ∷ []) (drop b out)))

-- An index in range.
pub index-ok {ℓ} :
    {E : Type 0} {A : Type ℓ} (xs : List A) (i : ℕ)
    → i < length xs
    → (x : A) × (index {E = E} xs i ≡ ok x)
index-ok [] i h = absurd (omega arith)
index-ok (x ∷ xs) zero h = (x, refl)
index-ok (x ∷ xs) (suc i) h = index-ok xs i (omega arith)

-- All of a slice.
pub slice_all {ℓ} : {E : Type 0} {A : Type ℓ} (xs : List A) → slice {E = E} xs 0 (length xs) ≡ ok xs
slice_all xs =
    ap (λ t. slice t 0 (length xs)) (sym (append-nil xs)) ∙ slice_prefix xs [] (length xs) refl

-- A slice in range, with its length.
pub slice_part {ℓ} :
    {E : Type 0} {A : Type ℓ} (xs : List A) (a b : ℕ)
    → a ≤ b
    → b ≤ length xs
    → (part : List A) × (slice {E = E} xs a b ≡ ok part) × (length part ≡ b - a)
slice_part xs a b h k =
    let n = length-take (b - a) (drop a xs) in
    let m = length-drop a xs in
    (take (b - a) (drop a xs), rw (le→leb a b h, le→leb b (length xs) k), n ∙ omega arith)

-- A copy that reaches the end of what it overwrites.
pub copy_to_end {ℓ} :
    {E : Type 0} {A : Type ℓ} (pre out src : List A) (a b : ℕ)
    → length pre ≡ a
    → length src ≡ length out
    → b ≡ a + length src
    → copy_to {E = E} (pre ++ out) a b src ≡ ok (pre ++ src)
copy_to_end pre out src a b ha same hb =
    copy_to-append pre out src a b ha hb (omega arith)
    ∙ ap (λ t. ok (pre ++ src ++ t)) (drop_all (length src) out (omega arith))
    ∙ ap ok (append-nil (pre ++ src))
