-- ===== src/Ll/Privacy.antt =====
-- Resolvable private addresses: src/ll/priv_.rs. AES-128 is the crate `aes`, a parameter.
pub mod Laws
use nrf_ble.Base.{ℕ, ◌*◌, ◌/◌, ◌%◌, ◌^◌, ◌==◌, bit_and, bit_or, if◌then◌else◌}
use nrf_ble.Base.{List, [], ◌∷◌, ◌++◌, replicate, bytes_eq, Bool, false}
use nrf_ble.Base.Results.{Result, ok, ◌>>=◌, index, slice, copy_to}

-- `encrypt key block` is the crate's `encrypt_block`.
module _ (encrypt : List ℕ → List ℕ → List ℕ) where
  unfoldable pub ah : List ℕ → List ℕ → Result ⊥ (List ℕ)
  ah irk prand = do
    block ← copy_to (replicate 16 0) 0 3 prand
    let out = encrypt irk block
    hash ← slice out 0 3
    copy_to (replicate 3 0) 0 3 hash

  unfoldable pub generate_rpa : List ℕ → ℕ → Result ⊥ (List ℕ)
  generate_rpa irk prand =
      let prand = bit_and prand 0x00FFFFFF in
      let top = bit_or (bit_and (bit_and (prand / 2 ^ 16) 0xFF) 0x3F) 0x40 in
      let prand_bytes = bit_and prand 0xFF ∷ bit_and (prand / 2 ^ 8) 0xFF ∷ top ∷ [] in
      (do
        hash ← ah irk prand_bytes
        addr ← copy_to (replicate 6 0) 0 3 hash
        copy_to addr 3 6 prand_bytes)

  unfoldable pub resolve_rpa : List ℕ → List ℕ → Result ⊥ Bool
  resolve_rpa irk addr = do
    last ← index addr 5
    if last / 2 ^ 6 == 1
        then (do
          half ← slice addr 3 6
          prand ← copy_to (replicate 3 0) 0 3 half
          expected ← ah irk prand
          given ← slice addr 0 3
          ok (bytes_eq expected given))
        else ok false
