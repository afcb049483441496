-- ===== src/Hw/Bonds/Record.antt =====
-- A bond survives its record.
use nrf_ble.Base.{bytes_eq, ℕ, ◌≡◌, refl, arith, List, [], ◌∷◌, length, Option, none, some}
use nrf_ble.Base.Results.{ok}
use nrf_ble.Hw.Bonds.{BondInfo, encode_record, decode_record, bond_record_len}

-- A bond whose address and keys have the sizes that their types say.
pub record IsBond (bond : BondInfo) : Type 0 where
  pub addr_size : length bond.addr ≡ 6
  pub ltk_size : length bond.ltk ≡ 16
  pub irk_size : (irk : List ℕ) → bond.irk ≡ some irk → length irk ≡ 16

abbrev Kept : List ℕ → List ℕ → Option (List ℕ) → Type 0
Kept addr ltk irk =
    (rec : List ℕ) × (encode_record (record { addr = addr; ltk = ltk; irk = irk }) ≡ ok rec)
    × (length rec ≡ bond_record_len)
    × (decode_record rec ≡ ok (some (record { addr = addr; ltk = ltk; irk = irk })))

kept_irk :
    (addr ltk irk : List ℕ)
    → length addr ≡ 6
    → length ltk ≡ 16
    → length irk ≡ 16
    → Kept addr ltk (some irk)
unfolding encode_record decode_record bytes_eq
kept_irk (a0 ∷ a1 ∷ a2 ∷ a3 ∷ a4 ∷ a5 ∷ [])
      (k0 ∷ k1 ∷ k2 ∷ k3 ∷ k4 ∷ k5 ∷ k6 ∷ k7 ∷ k8 ∷ k9 ∷ k10 ∷ k11 ∷ k12 ∷ k13 ∷ k14 ∷ k15 ∷ [])
      (j0 ∷ j1 ∷ j2 ∷ j3 ∷ j4 ∷ j5 ∷ j6 ∷ j7 ∷ j8 ∷ j9 ∷ j10 ∷ j11 ∷ j12 ∷ j13 ∷ j14 ∷ j15 ∷ []) ha
      hk hj =
    (_, refl, refl, refl)
kept_irk _ _ _ ha hk hj = absurd (omega arith)

kept_none : (addr ltk : List ℕ) → length addr ≡ 6 → length ltk ≡ 16 → Kept addr ltk none
unfolding encode_record decode_record bytes_eq
kept_none (a0 ∷ a1 ∷ a2 ∷ a3 ∷ a4 ∷ a5 ∷ [])
      (k0 ∷ k1 ∷ k2 ∷ k3 ∷ k4 ∷ k5 ∷ k6 ∷ k7 ∷ k8 ∷ k9 ∷ k10 ∷ k11 ∷ k12 ∷ k13 ∷ k14 ∷ k15 ∷ []) ha
      hk =
    (_, refl, refl, refl)
kept_none _ _ ha hk = absurd (omega arith)

kept :
    (addr ltk : List ℕ) (irk : Option (List ℕ))
    → length addr ≡ 6
    → length ltk ≡ 16
    → ((key : List ℕ) → irk ≡ some key → length key ≡ 16)
    → Kept addr ltk irk
kept addr ltk none ha hk hj = kept_none addr ltk ha hk
kept addr ltk (some irk) ha hk hj = kept_irk addr ltk irk ha hk (hj irk refl)

-- A bond with an address of six bytes and keys of 16 bytes becomes a record of 44 bytes, from which
-- the same bond is read.
pub decode_record-encode_record :
    (bond : BondInfo)
    → IsBond bond
    → (rec : List ℕ) × (encode_record bond ≡ ok rec)
      × (length rec ≡ bond_record_len)
      × (decode_record rec ≡ ok (some bond))
decode_record-encode_record bond valid =
    kept bond.addr bond.ltk bond.irk valid.addr_size valid.ltk_size valid.irk_size
