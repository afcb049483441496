-- ===== src/Hw/Bonds/Flash/Faults.antt =====
-- What `flush` does on a flash controller that takes whole words only.
use nrf_ble.Base.{
  ℕ, zero, suc, ◌+◌, ◌%◌, ◌≤◌, ◌≡◌, ◌≢◌, refl, sym, ap, ◌∙◌, arith, List, [], ◌∷◌, ◌++◌, length,
  replicate, bytes_eq, Option, none, some, ◌⊎◌, inl, inr,
}
use nrf_ble.Base.Results.{ok, err, ◌>>=◌}
use nrf_ble.Ll.Pdu.Fields.{le32}
use nrf_ble.Hw.Bonds.{BondInfo, Bonds, new, decode_record}
use nrf_ble.Hw.Bonds.Record.{IsBond, decode_record-encode_record}
use nrf_ble.Hw.Bonds.Flash.{
  bus_fault, Nvmc, load_slots, load_page, open_page, write_bytes, flush_slots, flush,
  bond_page_magic,
}

-- Every bond has an address and keys of their sizes.
pub data AllBonds : Bonds → Type 0 where
  no_slots : AllBonds []
  empty_slot : {slots : Bonds} → AllBonds slots → AllBonds (none ∷ slots)
  bond_slot :
      {bond : BondInfo} {slots : Bonds}
      → IsBond bond
      → AllBonds slots
      → AllBonds (some bond ∷ slots)

-- Slots without a bond.
abbrev no_bonds : ℕ → Bonds
no_bonds n = replicate n none

full_slot : (bond : BondInfo) (slots : Bonds) (n : ℕ) → some bond ∷ slots ≢ no_bonds n
full_slot bond slots zero e = cc
full_slot bond slots (suc n) e = cc

later_bond :
    (slot : Option BondInfo) (slots : Bonds)
    → slots ≢ no_bonds (length slots)
    → slot ∷ slots ≢ no_bonds (suc (length slots))
later_bond slot slots other e = other (cc)

write_bytes-faults :
    (nvmc : Nvmc) (a : ℕ) (bytes page : List ℕ)
    → ((page : List ℕ) (a byte : ℕ) → nvmc.write_byte page a byte ≡ err bus_fault)
    → 1 ≤ length bytes
    → write_bytes nvmc a bytes page ≡ err bus_fault
unfolding write_bytes
write_bytes-faults nvmc a [] page refused some_byte = absurd (omega arith)
write_bytes-faults nvmc a (byte ∷ bytes) page refused some_byte = rw (refused page a byte) refl

flush_slots-faults :
    (nvmc : Nvmc) (slots : Bonds) (a : ℕ) (page : List ℕ)
    → ((page : List ℕ) (a byte : ℕ) → nvmc.write_byte page a byte ≡ err bus_fault)
    → AllBonds slots
    → ((slots ≡ no_bonds (length slots)) × (flush_slots nvmc a slots page ≡ ok page))
      ⊎ ((slots ≢ no_bonds (length slots)) × (flush_slots nvmc a slots page ≡ err bus_fault))
unfolding flush_slots
flush_slots-faults nvmc [] a page refused all = inl (refl, refl)
flush_slots-faults nvmc (none ∷ slots) a page refused (empty_slot all) =
    elim (flush_slots-faults nvmc slots (a + 44) page refused all) [
      | inl (empty, e) ↦ inl (ap (λ s. none ∷ s) empty, e)
      | inr (other, e) ↦ inr (later_bond none slots other, e)
    ]
flush_slots-faults nvmc (some bond ∷ slots) a page refused (bond_slot valid all) =
    let (rec, enc, size, _) = decode_record-encode_record bond valid in
    let fault = write_bytes-faults nvmc a rec page refused (omega arith) in
    inr (full_slot bond slots (suc (length slots)), rw (enc, fault) refl)

-- The page of a cache without bonds.
abbrev blank_page : List ℕ
blank_page = le32 bond_page_magic ++ replicate 4092 0xFF

open_page-blank : open_page blank_page ≡ ok new
unfolding open_page load_page load_slots decode_record bytes_eq new
open_page-blank = refl

-- The flash controller erases a page to bytes 0xFF, stores a word at an aligned offset where the
-- page is erased, and refuses a store of a byte with a bus fault. Then `flush` of a cache of eight
-- slots, whose bonds have addresses and keys of their sizes, to a page of 4096 bytes gets through if
-- and only if the cache has no bond, and the store that is opened on the page then has none either;
-- with a bond in any slot `flush` ends in the bus fault.
pub flush-faults :
    (nvmc : Nvmc) (cache : Bonds) (page : List ℕ)
    → ((page : List ℕ) → length page ≡ 4096 → nvmc.erase page ≡ replicate 4096 0xFF)
    → ((pre post : List ℕ) (w : ℕ)
        → length pre % 4 ≡ 0
        → nvmc.write_word (pre ++ replicate 4 0xFF ++ post) (length pre) w
          ≡ ok (pre ++ le32 w ++ post))
    → ((page : List ℕ) (a byte : ℕ) → nvmc.write_byte page a byte ≡ err bus_fault)
    → length page ≡ 4096
    → length cache ≡ 8
    → AllBonds cache
    → ((cache ≡ replicate 8 none)
        × ((page' : List ℕ) × (flush nvmc cache page ≡ ok page') × (open_page page' ≡ ok cache)))
      ⊎ ((cache ≢ replicate 8 none) × (flush nvmc cache page ≡ err bus_fault))
unfolding flush new
flush-faults nvmc cache page erases words refused size eight all =
    let start : nvmc.write_word (nvmc.erase page) 0 bond_page_magic ≡ ok blank_page =
      ap (λ p. nvmc.write_word p 0 bond_page_magic) (erases page size)
      ∙ words [] (replicate 4092 0xFF) bond_page_magic refl in
    let same : no_bonds (length cache) ≡ no_bonds 8 = ap (λ (n : ℕ). no_bonds n) eight in
    let step : flush nvmc cache page ≡ flush_slots nvmc 4 cache blank_page =
      ap (λ m. m >>= λ p. flush_slots nvmc 4 cache p) start in
    elim (flush_slots-faults nvmc cache 4 blank_page refused all) [
      | inl (empty, e) ↦
          let none_left : cache ≡ no_bonds 8 = empty ∙ same in
          inl (none_left, (blank_page, step ∙ e, open_page-blank ∙ ap ok (sym none_left)))
      | inr (other, e) ↦ inr (λ empty. other (empty ∙ sym same), step ∙ e)
    ]
