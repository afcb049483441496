-- ===== src/Hw/Ccm.antt =====
-- The driver of the encryption block: `Ccm` of src/hw/ccm.rs. What the block does with a packet is a
-- parameter: from the configuration and the packet in memory, whether it succeeds, and the memory
-- afterwards.
pub mod Nonce
use nrf_ble.Base.{ℕ, ◌+◌, ◌/◌, ◌%◌, ◌^◌, List, [], ◌∷◌, replicate, Bool}
use nrf_ble.Base.Results.{Result, ok, ◌>>=◌, index, slice, copy_to, put}

abbrev pub ll_nonce_master_to_slave : ℕ
ll_nonce_master_to_slave = 1

abbrev pub ll_nonce_slave_to_master : ℕ
ll_nonce_slave_to_master = 0

abbrev pub ll_mic_len : ℕ
ll_mic_len = 4

-- `cfg` has 45 elements.
pub record Ccm : Type 0 where
  pub cfg : List ℕ

-- `packet_counter.to_le_bytes()`
abbrev pub le64 : ℕ → List ℕ
le64 n =
    n % 256
    ∷ n / 2 ^ 8 % 256
    ∷ n / 2 ^ 16 % 256
    ∷ n / 2 ^ 24 % 256
    ∷ n / 2 ^ 32 % 256
    ∷ n / 2 ^ 40 % 256
    ∷ n / 2 ^ 48 % 256
    ∷ n / 2 ^ 56 % 256
    ∷ []

unfoldable pub setup : List ℕ → ℕ → ℕ → Ccm → Result ⊥ Ccm
setup key packet_counter direction c = do
  cfg ← copy_to c.cfg 0 16 key
  cfg ← put cfg 16 0x01
  counter ← slice (le64 packet_counter) 0 5
  cfg ← copy_to cfg 17 22 counter
  cfg ← put cfg 22 direction
  cfg ← copy_to cfg 23 29 (replicate 6 0)
  cfg ← put cfg 29 0
  cfg ← put cfg 30 0
  cfg ← copy_to cfg 31 45 (replicate 14 0)
  ok (record { cfg = cfg })

-- Whether it succeeds, the packet, and the driver afterwards.
unfoldable pub process :
    (List ℕ → Bool → List ℕ → Bool × List ℕ) → Bool → List ℕ → Ccm → Result ⊥ (Bool × List ℕ × Ccm)
process block decrypt pdu c = do
  b0 ← index pdu 0
  b1 ← index pdu 1
  cfg ← put c.cfg 29 b0
  cfg ← put cfg 30 b1
  cfg ← copy_to cfg 31 45 (replicate 14 0)
  let (succeeds, pdu) = block cfg decrypt pdu
  ok (succeeds, pdu, record { cfg = cfg })
