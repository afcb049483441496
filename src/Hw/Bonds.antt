-- ===== src/Hw/Bonds.antt =====
-- Bonds: `BondInfo`, `BondStore` and `RamBondStore` of src/hw/conn.rs, and the records and the cache
-- of src/hw/bond_flash.rs.
pub mod Laws
pub mod Record
pub mod Flash
use nrf_ble.Base.{
  ℕ, List, [], ◌∷◌, replicate, ◌==◌, bytes_eq, Bool, not, bit, Option, none, some, if◌then◌else◌,
}
use nrf_ble.Base.Results.{Result, ok, ◌>>=◌, index, slice, copy_to, put}

abbrev pub bond_max : ℕ
bond_max = 8

abbrev pub bond_record_len : ℕ
bond_record_len = 44

-- `0xA5A5_5A5Au32.to_le_bytes()`
abbrev pub trailer : List ℕ
trailer = 0x5A ∷ 0x5A ∷ 0xA5 ∷ 0xA5 ∷ []

pub record BondInfo : Type 0 where
  pub addr : List ℕ
  pub ltk : List ℕ
  pub irk : Option (List ℕ)

-- The slots of a store: `RamBondStore.bonds`, and `FlashBondStore.cache`.
abbrev pub Bonds : Type 0
Bonds = List (Option BondInfo)

unfoldable pub new : Bonds
new = replicate bond_max none

-- The first loop of `save`: the slots afterwards, if some bond has the peer's address.
unfoldable pub replace : Bonds → BondInfo → Option Bonds
replace [] info = none
replace (none ∷ slots) info = elim (replace slots info) [
  | none ↦ none
  | some rest ↦ some (none ∷ rest)
]
replace (some b ∷ slots) info =
    let rest = replace slots info in
    if bytes_eq b.addr info.addr
    then some (some info ∷ slots)
    else elim rest [ none ↦ none | some rest ↦ some (some b ∷ rest) ]

-- The second loop: the slots afterwards, if there is an empty one.
unfoldable pub fill_empty : Bonds → BondInfo → Option Bonds
fill_empty [] info = none
fill_empty (none ∷ slots) info = some (some info ∷ slots)
fill_empty (some b ∷ slots) info = elim (fill_empty slots info) [
  | none ↦ none
  | some rest ↦ some (some b ∷ rest)
]

unfoldable pub save : Bonds → List ℕ → List ℕ → Option (List ℕ) → Bonds
save bonds peer ltk irk =
    let info : BondInfo = record { addr = peer; ltk = ltk; irk = irk } in
    elim (replace bonds info) [
      | some slots ↦ slots
      | none ↦ elim (fill_empty bonds info) [ some slots ↦ slots | none ↦ bonds ]
    ]

unfoldable pub find : Bonds → List ℕ → Option BondInfo
find [] peer = none
find (none ∷ slots) peer = find slots peer
find (some b ∷ slots) peer =
    let rest = find slots peer in if bytes_eq b.addr peer then some b else rest

-- The record of one bond in flash.
unfoldable pub encode_record : BondInfo → Result ⊥ (List ℕ)
encode_record bond = do
  let rec = replicate bond_record_len 0
  a0 ← index bond.addr 0
  rec ← put rec 0 a0
  a1 ← index bond.addr 1
  rec ← put rec 1 a1
  a2 ← index bond.addr 2
  rec ← put rec 2 a2
  a3 ← index bond.addr 3
  rec ← put rec 3 a3
  a4 ← index bond.addr 4
  rec ← put rec 4 a4
  a5 ← index bond.addr 5
  rec ← put rec 5 a5
  rec ← put rec 6 0
  rec ← copy_to rec 7 23 bond.ltk
  rec ← put rec 23 (elim bond.irk [ none ↦ 0 | some k ↦ 1 ])
  rec ← elim bond.irk [ none ↦ ok rec | some irk ↦ copy_to rec 24 40 irk ]
  copy_to rec 40 44 trailer

unfoldable pub decode_record : List ℕ → Result ⊥ (Option BondInfo)
decode_record rec = do
  tail ← slice rec 40 44
  if bytes_eq tail trailer
      then (do
        head ← slice rec 0 6
        addr ← copy_to (replicate 6 0) 0 6 head
        key ← slice rec 7 23
        ltk ← copy_to (replicate 16 0) 0 16 key
        flag ← index rec 23
        irk ←
            (if flag == 0 then ok none else (do
              key ← slice rec 24 40
              irk ← copy_to (replicate 16 0) 0 16 key
              ok (some irk)))
        ok (some (record { addr = addr; ltk = ltk; irk = irk })))
      else ok none
