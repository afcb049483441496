-- ===== src/Tests/Lists.antt =====
-- Addresses, the accept list, advertising data and bonds.
use nrf_ble.Base.{
  ℕ, ◌≡◌, ◌≢◌, refl, arith, List, [], ◌∷◌, ◌++◌, Bool, true, ◌||◌, length, take, drop, replicate,
  none, some, if◌then◌else◌,
}
use nrf_ble.Base.Results.{ok, err}
use nrf_ble.Ll.Addr.{public, random_static, random_private_resolvable, parse}
use nrf_ble.Ll.Privacy.{generate_rpa, resolve_rpa}
use nrf_ble.Ll.Privacy.Laws.{resolve_rpa-generate_rpa}
use nrf_ble.Ll.AcceptList.{AcceptList, add}
use nrf_ble.Ll.AcceptList.Laws.{IsAcceptList, IsAmong, used, add_lem}
use nrf_ble.Gap.Ad.{AdEntry, AdIter, build, new_iter}
use nrf_ble.Gap.Ad.Layout.{packed, entry_bytes}
use nrf_ble.Gap.Ad.Next.{NextResult, next_lem}
use nrf_ble.Gap.Ad.RoundTrip.{Yields, iter-build}
use nrf_ble.Hw.Bonds.{BondInfo, Bonds, find, save}
use nrf_ble.Hw.Bonds.Flash.{bus_fault, Nvmc, flush, open_page}
use nrf_ble.Ll.Pdu.Fields.{le32}
use nrf_ble.Base.{
  ◌+◌, ◌%◌, ◌≤◌, ◌<◌, ◌⊎◌, false, ap, ◌∙◌, append_assoc, length-append, take-append, drop-append,
}
use nrf_ble.Hw.Bonds.Flash.Faults.{AllBonds, no_slots, empty_slot, bond_slot, flush-faults}
use nrf_ble.Hw.Bonds.Laws.{is_known, has_empty, find-save}
use nrf_ble.Hw.Bonds.Record.{IsBond}

abbrev address : List ℕ
address = 1 ∷ 2 ∷ 3 ∷ 4 ∷ 5 ∷ 6 ∷ []

abbrev key : List ℕ
key = replicate 16 7

-- A stand-in for the block cipher, which keeps the block.
abbrev kept : List ℕ → List ℕ → List ℕ
kept irk block = block

resolve_rpa-generate_rpa_example :
    (addr : List ℕ) × (generate_rpa kept key 0x123456 ≡ ok addr)
    × (length addr ≡ 6)
    × (parse addr ≡ ok (record { addr = addr; addr_type = random_private_resolvable }))
    × (resolve_rpa kept key addr ≡ ok true)
resolve_rpa-generate_rpa_example = resolve_rpa-generate_rpa kept (λ irk block h. h) key 0x123456

abbrev accepted : AcceptList
accepted = record {
  entries =
      record { addr_type = public; addr = address }
      ∷ replicate 7 (record { addr_type = public; addr = replicate 6 0 });
  len = 1;
}

accepted-IsAcceptList : IsAcceptList accepted
accepted-IsAcceptList = record {
  capacity = refl;
  bounded = omega arith;
  no_duplicates = (λ h. h, tt);
}

add_lem_example :
    (after : AcceptList) × (added : Bool) × (add accepted address random_static ≡ ok (after, added))
    × IsAcceptList after
    × (((added ≡ true)
          × (1 < 8)
          × ¬ IsAmong (record { addr_type = random_static; addr = address }) (used accepted)
          × (used after
              ≡ used accepted ++ record { addr_type = random_static; addr = address } ∷ []))
        ⊎ ((added ≡ false)
            × ((8 ≤ 1)
                ⊎ IsAmong (record { addr_type = random_static; addr = address }) (used accepted))
            × (after ≡ accepted)))
add_lem_example = add_lem accepted address random_static accepted-IsAcceptList

abbrev entries : List AdEntry
entries =
    record { ad_type = 1; «data» = 6 ∷ [] } ∷ record { ad_type = 9; «data» = 110 ∷ 114 ∷ [] } ∷ []

iter-build_example :
    (out' : List ℕ) × (n : ℕ) × (build entries (replicate 10 0) ≡ ok (out', n))
    × (drop n out' ≡ drop n (replicate 10 0))
    × Yields (new_iter (take n out')) entries
unfolding packed entry_bytes
iter-build_example = iter-build entries (replicate 10 0) (omega arith) (omega arith)

abbrev truncated : AdIter
truncated = record { buf = 5 ∷ 9 ∷ 110 ∷ []; pos = 0 }

next_lem_example : NextResult truncated
next_lem_example = next_lem truncated

find-save_example :
    (find (save (none ∷ none ∷ []) address key none) address ≡ (
      if is_known (none ∷ none ∷ []) address || has_empty (none ∷ none ∷ [])
      then some (record { addr = address; ltk = key; irk = none })
      else none))
    × ((q : List ℕ)
        → address ≢ q
        → find (save (none ∷ none ∷ []) address key none) q ≡ find (none ∷ none ∷ []) q)
find-save_example = find-save (none ∷ none ∷ []) address key none

abbrev bond : BondInfo
bond = record { addr = address; ltk = key; irk = none }

bond-IsBond : IsBond bond
bond-IsBond = record { addr_size = refl; ltk_size = refl; irk_size = λ irk e. cc }

abbrev cache : Bonds
cache = none ∷ some bond ∷ none ∷ none ∷ none ∷ none ∷ none ∷ none ∷ []

cache-AllBonds : AllBonds cache
cache-AllBonds = empty_slot (
    bond_slot bond-IsBond
      (empty_slot (empty_slot (empty_slot (empty_slot (empty_slot (empty_slot no_slots)))))))

-- A controller that stores words and refuses bytes.
abbrev words_only : Nvmc
words_only = record {
  erase = λ page. replicate 4096 0xFF;
  write_word = λ page a w. ok (take a page ++ le32 w ++ drop (a + 4) page);
  write_byte = λ page a byte. err bus_fault;
}

stores_word :
    (pre post : List ℕ) (w : ℕ)
    → length pre % 4 ≡ 0
    → words_only.write_word (pre ++ replicate 4 0xFF ++ post) (length pre) w
      ≡ ok (pre ++ le32 w ++ post)
stores_word pre post w aligned =
    let four : List ℕ = replicate 4 0xFF in
    let n = length-append pre four in
    let before : take (length pre) (pre ++ four ++ post) ≡ pre =
      ap (take (length pre)) (append_assoc pre four post)
      ∙ take-append (length pre) pre (four ++ post) refl in
    let behind : drop (length pre + 4) (pre ++ four ++ post) ≡ post =
      drop-append (length pre + 4) (pre ++ four) post n in
    rw (before, behind) refl

flush-faults_example :
    ((cache ≡ replicate 8 none)
      × ((page' : List ℕ) × (flush words_only cache (replicate 4096 0) ≡ ok page')
          × (open_page page' ≡ ok cache)))
    ⊎ ((cache ≢ replicate 8 none) × (flush words_only cache (replicate 4096 0) ≡ err bus_fault))
flush-faults_example =
    flush-faults words_only cache (replicate 4096 0) (λ page h. refl) stores_word
      (λ page a byte. refl) refl refl cache-AllBonds
