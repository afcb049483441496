-- ===== src/Hw/Bonds/Flash.antt =====
-- The page of bonds in flash: `FlashBondStore` of src/hw/bond_flash.rs. The page is a list of its
-- bytes, from the base address; the flash controller is a parameter, and the waits for it are left
-- out.
pub mod Faults
use nrf_ble.Base.{ℕ, zero, suc, ◌+◌, ◌==◌, if◌then◌else◌, List, [], ◌∷◌, Option, none, some}
use nrf_ble.Base.Results.{Result, ok, ◌>>=◌, lift, index, slice}
use nrf_ble.Ll.Pdu.Fields.{from_le32}
use nrf_ble.Hw.Bonds.{Bonds, new, bond_max, bond_record_len, encode_record, decode_record}

abbrev pub bond_page_magic : ℕ
bond_page_magic = 0x4E423144

abbrev pub bond_page_size : ℕ
bond_page_size = 4096

-- The loop of `load_page` over the slots that are left, from an address in the page.
unfoldable pub load_slots : ℕ → ℕ → List ℕ → Result ⊥ Bonds
load_slots zero a page = ok []
load_slots (suc n) a page = do
  rec ← slice page a (a + bond_record_len)
  slot ← decode_record rec
  rest ← load_slots n (a + bond_record_len) page
  ok (slot ∷ rest)

-- The cache afterwards.
unfoldable pub load_page : List ℕ → Bonds → Result ⊥ Bonds
load_page page cache = do
  b0 ← index page 0
  b1 ← index page 1
  b2 ← index page 2
  b3 ← index page 3
  if from_le32 b0 b1 b2 b3 == bond_page_magic then load_slots bond_max 4 page else ok cache

-- `FlashBondStore::open`, and `new`.
unfoldable pub open_page : List ℕ → Result ⊥ Bonds
open_page page = load_page page new

-- What the bus answers to a store that the flash does not take.
pub data Fault : Type 0 where
  bus_fault : Fault

-- The flash controller: what an erase command makes of the page, and what a store of a word or of a
-- byte at an offset of the page does.
pub record Nvmc : Type 0 where
  pub erase : List ℕ → List ℕ
  pub write_word : List ℕ → ℕ → ℕ → Result Fault (List ℕ)
  pub write_byte : List ℕ → ℕ → ℕ → Result Fault (List ℕ)

-- The inner loop of `flush`, over the bytes of a record that are left.
unfoldable pub write_bytes : Nvmc → ℕ → List ℕ → List ℕ → Result Fault (List ℕ)
write_bytes nvmc a [] page = ok page
write_bytes nvmc a (byte ∷ bytes) page = do
  page ← nvmc.write_byte page a byte
  write_bytes nvmc (a + 1) bytes page

-- The outer loop of `flush`.
unfoldable pub flush_slots : Nvmc → ℕ → Bonds → List ℕ → Result Fault (List ℕ)
flush_slots nvmc a [] page = ok page
flush_slots nvmc a (none ∷ slots) page = flush_slots nvmc (a + bond_record_len) slots page
flush_slots nvmc a (some bond ∷ slots) page = do
  rec ← lift (encode_record bond)
  page ← write_bytes nvmc a rec page
  flush_slots nvmc (a + bond_record_len) slots page

-- The page afterwards.
unfoldable pub flush : Nvmc → Bonds → List ℕ → Result Fault (List ℕ)
flush nvmc cache page = do
  page ← nvmc.write_word (nvmc.erase page) 0 bond_page_magic
  flush_slots nvmc 4 cache page
