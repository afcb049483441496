-- ===== src/Hw/Smp.antt =====
-- The functions of LE legacy pairing: `c1` and `s1` of src/hw/smp.rs. AES-128 is the crate `aes`, a
-- parameter.
pub mod Commit
pub mod State
pub mod Pairing
pub mod PublicKey
pub mod Sizes
pub mod Verify
pub mod Calls
pub mod Agreement
pub mod SharedSecret
use nrf_ble.Base.{ℕ, List, [], ◌∷◌, replicate, bit_xor}
use nrf_ble.Base.Results.{Result, ok, panic, ◌>>=◌, slice, copy_to, put}

pub record C1Inputs : Type 0 where
  pub r : List ℕ
  pub preq : List ℕ
  pub pres : List ℕ
  pub iat : ℕ
  pub rat : ℕ
  pub ia : List ℕ
  pub ra : List ℕ

-- `a[i] ^ b[i]` for each index of two arrays of one size.
unfoldable pub xor_block : List ℕ → List ℕ → Result ⊥ (List ℕ)
xor_block [] [] = ok []
xor_block [] (y ∷ ys) = panic
xor_block (x ∷ xs) [] = panic
xor_block (x ∷ xs) (y ∷ ys) = do rest ← xor_block xs ys; ok (bit_xor x y ∷ rest)

-- `encrypt key block` is `aes_encrypt`.
module _ (encrypt : List ℕ → List ℕ → List ℕ) where
  unfoldable pub c1 : List ℕ → C1Inputs → Result ⊥ (List ℕ)
  c1 tk inputs = do
    p1 ← put (replicate 16 0) 0 inputs.iat
    p1 ← put p1 1 inputs.rat
    p1 ← copy_to p1 2 9 inputs.preq
    p1 ← copy_to p1 9 16 inputs.pres
    res ← xor_block inputs.r p1
    let res = encrypt tk res
    p2 ← copy_to (replicate 16 0) 0 6 inputs.ra
    p2 ← copy_to p2 6 12 inputs.ia
    p2 ← copy_to p2 12 16 (replicate 4 0)
    res ← xor_block res p2
    ok (encrypt tk res)

  unfoldable pub s1 : List ℕ → List ℕ → List ℕ → Result ⊥ (List ℕ)
  s1 k r1 r2 = do
    low ← slice r2 0 8
    block ← copy_to (replicate 16 0) 0 8 low
    high ← slice r1 0 8
    block ← copy_to block 8 16 high
    ok (encrypt k block)
