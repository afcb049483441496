-- ===== src/Hw/Queue/Slots.antt =====
-- Places in a ring of slots.
use native.Mathlib.Nat.{mod-eq_of_lt, mod-eq-sub-mod, mod-add-mod, add-mod_right}
use nrf_ble.Base.{
  ℕ, zero, suc, ◌+◌, ◌-◌, ◌%◌, ◌≤◌, ◌<◌, ◌≡◌, ◌≢◌, refl, ap, ◌∙◌, arith, ◌⊎◌, inl, inr, leb,
  Bool-cases, List, [], ◌∷◌, ◌++◌, length, set, get_elem?, replicate, Option, none, some,
}
use nrf_ble.Base.Results.{Result, ok, panic, index}

wrap : (n a : ℕ) → a < n + n → ((a < n) × (a % n ≡ a)) ⊎ ((n ≤ a) × (a % n ≡ a - n))
wrap n a h = elim (Bool-cases (leb n a)) [
  | inl over ↦
      let over' : n ≤ a = ground arith in
      let less : a - n < n = omega arith in inr (over', mod-eq-sub-mod over' ∙ mod-eq_of_lt less)
  | inr under ↦ let under' : a < n = ground arith in inl (under', mod-eq_of_lt under')
]

module _ {ℓ} {A : Type ℓ} where
  pub get_elem?-set_same :
      (xs : List A) (i : ℕ) (v : A) → i < length xs → get_elem? (set xs i v) i ≡ some v
  get_elem?-set_same [] i v h = absurd (omega arith)
  get_elem?-set_same (x ∷ xs) zero v h = refl
  get_elem?-set_same (x ∷ xs) (suc i) v h = get_elem?-set_same xs i v (omega arith)

  pub get_elem?-set_other :
      (xs : List A) (i j : ℕ) (v : A) → i ≢ j → get_elem? (set xs i v) j ≡ get_elem? xs j
  get_elem?-set_other [] i j v h = refl
  get_elem?-set_other (x ∷ xs) zero zero v h = absurd (h refl)
  get_elem?-set_other (x ∷ xs) zero (suc j) v h = refl
  get_elem?-set_other (x ∷ xs) (suc i) zero v h = refl
  get_elem?-set_other (x ∷ xs) (suc i) (suc j) v h =
      get_elem?-set_other xs i j v (λ e. h (ap suc e))

  pub index-of : (xs : List A) (i : ℕ) (v : A) → get_elem? xs i ≡ some v → index {E = ⊥} xs i ≡ ok v
  index-of xs i v e =
      ap (λ (o : Option A). elim o as (λ _. Result ⊥ A) [ none ↦ panic | some x ↦ ok x ]) e

  pub get_elem?-replicate : (n i : ℕ) (v : A) → i < n → get_elem? (replicate n v) i ≡ some v
  get_elem?-replicate zero i v h = absurd (omega arith)
  get_elem?-replicate (suc n) zero v h = refl
  get_elem?-replicate (suc n) (suc i) v h = get_elem?-replicate n i v (omega arith)

  pub get_elem?-beyond : (xs : List A) (i : ℕ) → length xs ≤ i → get_elem? xs i ≡ none
  get_elem?-beyond [] i h = refl
  get_elem?-beyond (x ∷ xs) zero h = absurd (omega arith)
  get_elem?-beyond (x ∷ xs) (suc i) h = get_elem?-beyond xs i (omega arith)

  pub get_elem?-last : (xs : List A) (v : A) → get_elem? (xs ++ v ∷ []) (length xs) ≡ some v
  get_elem?-last [] v = refl
  get_elem?-last (x ∷ xs) v = get_elem?-last xs v

  pub get_elem?-before :
      (xs : List A) (v : A) (k : ℕ) → k ≢ length xs → get_elem? (xs ++ v ∷ []) k ≡ get_elem? xs k
  get_elem?-before [] v zero h = absurd (h refl)
  get_elem?-before [] v (suc k) h = refl
  get_elem?-before (x ∷ xs) v zero h = refl
  get_elem?-before (x ∷ xs) v (suc k) h = get_elem?-before xs v k (λ e. h (ap suc e))

-- Different places from the tail on are different slots.
pub apart : (n t i j : ℕ) → t < n → i < n → j < n → i ≢ j → (t + i) % n ≢ (t + j) % n
apart n t i j ht hi hj differ e = elim (wrap n (t + i) (omega arith)) [
  | inl a ↦ elim (wrap n (t + j) (omega arith)) [
    | inl b ↦ differ (omega arith)
    | inr b ↦ differ (omega arith)
  ]
  | inr a ↦ elim (wrap n (t + j) (omega arith)) [
    | inl b ↦ differ (omega arith)
    | inr b ↦ differ (omega arith)
  ]
]

pub below : (n t i : ℕ) → t < n → i < n → (t + i) % n < n
below n t i ht hi = elim (wrap n (t + i) (omega arith)) [
  | inl a ↦ omega arith
  | inr a ↦ omega arith
]

-- One place further, seen from the tail and from the slot behind it.
pub shift : (n t k : ℕ) → ((t + 1) % n + k) % n ≡ (t + suc k) % n
shift n t k = mod-add-mod (t + 1) n k ∙ ap (λ (a : ℕ). a % n) (omega arith)

pub first_place : (n t : ℕ) → t < n → (t + 0) % n ≡ t
first_place n t h =
    let same : t + 0 ≡ t = omega arith in ap (λ (a : ℕ). a % n) same ∙ mod-eq_of_lt h

pub round : (n t : ℕ) → t < n → (t + n) % n ≡ t
round n t h = add-mod_right t n ∙ mod-eq_of_lt h
