-- ===== src/Ll/Privacy/Laws.antt =====
-- Generated addresses resolve.
use nrf_ble.Base.{ℕ, ◌/◌, ◌^◌, ◌<◌, ◌==◌, ◌≡◌, refl, bit_and, bit_or}
use nrf_ble.Base.{List, [], ◌∷◌, length, replicate, bytes_eq_refl, true, arith}
use nrf_ble.Base.{holds_below, holds_below_at, ==→eq}
use nrf_ble.Base.Bits.{bit_and_mask}
use nrf_ble.Base.Results.{ok}
use nrf_ble.Base.Slices.{slice_prefix}
use nrf_ble.Ll.Privacy.{ah, generate_rpa, resolve_rpa}
use nrf_ble.Ll.Addr.{random_private_resolvable, parse, type_of_bits}

-- The top two bits that `generate_rpa` sets.
top_table : holds_below 256 (λ b. bit_or (bit_and b 0x3F) 0x40 / 2 ^ 6 == 1) ≡ true
unfolding holds_below
top_table = refl

top_bits : (b : ℕ) → b < 256 → bit_or (bit_and b 0x3F) 0x40 / 2 ^ 6 ≡ 1
top_bits b h = ==→eq _ 1 (holds_below_at 256 _ b top_table h)

-- The first three bytes of a block.
hash_of :
    (out : List ℕ)
    → length out ≡ 16
    → (a : ℕ) × (b : ℕ) × (c : ℕ) × (rest : List ℕ) × (out ≡ a ∷ b ∷ c ∷ rest)
hash_of (a ∷ b ∷ c ∷ rest) h = (a, b, c, rest, refl)
hash_of _ h = absurd (omega arith)

module _ (encrypt : List ℕ → List ℕ → List ℕ)
    (block_size : (key block : List ℕ) → length block ≡ 16 → length (encrypt key block) ≡ 16) where
  -- A hash has three bytes.
  ah-ok :
      (irk : List ℕ) (x y z : ℕ)
      → (a : ℕ) × (b : ℕ) × (c : ℕ) × (ah encrypt irk (x ∷ y ∷ z ∷ []) ≡ ok (a ∷ b ∷ c ∷ []))
  unfolding ah
  ah-ok irk x y z =
      let block = x ∷ y ∷ z ∷ replicate 13 0 in
      let (a, b, c, rest, e) = hash_of (encrypt irk block) (block_size irk block refl) in
      (a, b, c, rw (e, slice_prefix {E = ⊥} (a ∷ b ∷ c ∷ []) rest 3 refl))

  -- If the block cipher yields 16 bytes for a block of 16 bytes, an address is generated from every
  -- random value; it has six bytes, is parsed as a resolvable private address, and resolves with
  -- the key it was generated with.
  pub resolve_rpa-generate_rpa :
      (irk : List ℕ) (prand : ℕ)
      → (addr : List ℕ) × (generate_rpa encrypt irk prand ≡ ok addr)
        × (length addr ≡ 6)
        × (parse addr ≡ ok (record { addr = addr; addr_type = random_private_resolvable }))
        × (resolve_rpa encrypt irk addr ≡ ok true)
  unfolding generate_rpa resolve_rpa parse type_of_bits
  resolve_rpa-generate_rpa irk prand =
      let p = bit_and prand 0x00FFFFFF in
      let x = bit_and p 0xFF in
      let y = bit_and (p / 2 ^ 8) 0xFF in
      let b = bit_and (p / 2 ^ 16) 0xFF in
      let small = bit_and_mask 8 (p / 2 ^ 16) in
      let z = bit_or (bit_and b 0x3F) 0x40 in
      let top = top_bits b (omega arith) in
      let (c, d, e, hash) = ah-ok irk x y z in
      let addr = c ∷ d ∷ e ∷ x ∷ y ∷ z ∷ [] in
      (addr, rw hash, refl, rw top, rw (top, hash, bytes_eq_refl (c ∷ d ∷ e ∷ [])))
