-- ===== src/Ll/AcceptList.antt =====
-- The accept list: src/ll/accept_list.rs. `entries` is an array of `accept_list_max` elements.
pub mod Laws
use nrf_ble.Base.{ℕ, ◌+◌, List, ◌∷◌, [], length, take, replicate, set, leb, ltb, ◌==◌, bytes_eq}
use nrf_ble.Base.{Bool, true, false, ◌&&◌, ◌||◌, if◌then◌else◌}
use nrf_ble.Base.Results.{Result, ok, ◌>>=◌, put, slice}
use nrf_ble.Ll.Addr.{AddrType, public, type_eq}

abbrev pub accept_list_max : ℕ
accept_list_max = 8

pub record Entry : Type 0 where
  pub addr_type : AddrType
  pub addr : List ℕ

pub record AcceptList : Type 0 where
  pub entries : List Entry
  pub len : ℕ

unfoldable pub empty : AcceptList
empty = record {
  entries = replicate accept_list_max (record { addr_type = public; addr = replicate 6 0 });
  len = 0;
}

unfoldable pub clear : AcceptList → AcceptList
clear list = record list { len = 0 }

-- `self.entries[..self.len]`
unfoldable pub entries_of : AcceptList → Result ⊥ (List Entry)
entries_of list = slice list.entries 0 list.len

unfoldable pub any_equal : List ℕ → AddrType → List Entry → Bool
any_equal addr addr_type [] = false
any_equal addr addr_type (e ∷ es) =
    (type_eq e.addr_type addr_type && bytes_eq e.addr addr) || any_equal addr addr_type es

unfoldable pub contains : AcceptList → List ℕ → AddrType → Result ⊥ Bool
contains list addr addr_type = do es ← entries_of list; ok (any_equal addr addr_type es)

-- The list afterwards, and whether the entry was added; `||` does not evaluate `contains` when the
-- list is full.
unfoldable pub add : AcceptList → List ℕ → AddrType → Result ⊥ (AcceptList × Bool)
add list addr addr_type = if leb accept_list_max list.len then ok (list, false) else (do
  present ← contains list addr addr_type
  if present then ok (list, false) else (do
    entries ← put list.entries list.len (record { addr_type = addr_type; addr = addr })
    ok (record { entries = entries; len = list.len + 1 }, true)))

unfoldable pub is_empty : AcceptList → Bool
is_empty list = list.len == 0
