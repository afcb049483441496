-- ===== src/Ll/AcceptList/Laws.antt =====
-- What the accept list keeps.
use nrf_ble.Base.{length-set}
use nrf_ble.Base.{
  ℕ, zero, suc, ◌+◌, ◌≤◌, ◌<◌, ◌≡◌, refl, sym, ap, ◌∙◌, arith, List, [], ◌∷◌, ◌++◌, length, take,
  drop, set,
}
use nrf_ble.Base.{
  leb→le, Bool-cases, inl, inr, le→leb, leb, bytes_eq, bytes_eq→eq, bytes_eq_refl, ◌≢◌, ◌⊎◌,
  take-append-drop, Bool, true, false, ◌&&◌, length-take,
}
use nrf_ble.Base.Results.{ok, slice}
use nrf_ble.Base.Slices.{slice_prefix}
use nrf_ble.Ll.Addr.{
  AddrType, public, random_static, random_private_resolvable, random_private_non_resolvable,
  type_eq,
}
use nrf_ble.Ll.AcceptList.{accept_list_max, Entry, AcceptList, entries_of, any_equal, contains, add}

pub type_eq_refl : (t : AddrType) → type_eq t t ≡ true
unfolding type_eq
type_eq_refl public = refl
type_eq_refl random_static = refl
type_eq_refl random_private_resolvable = refl
type_eq_refl random_private_non_resolvable = refl

-- The entry is one of the list.
abbrev pub IsAmong : Entry → List Entry → Type 0
IsAmong e [] = ⊥
IsAmong e (d ∷ es) = (d ≡ e) ⊎ IsAmong e es

-- No entry stands in the list twice.
abbrev pub AreDistinct : List Entry → Type 0
AreDistinct [] = Unit {0}
AreDistinct (e ∷ es) = (¬ IsAmong e es) × AreDistinct es

-- The array has its eight elements, at most all of them are in use, and these are distinct.
pub record IsAcceptList (list : AcceptList) : Type 0 where
  pub capacity : length list.entries ≡ accept_list_max
  pub bounded : list.len ≤ accept_list_max
  pub no_duplicates : AreDistinct (take list.len list.entries)

type_eq→eq : (s t : AddrType) → type_eq s t ≡ true → s ≡ t
unfolding type_eq
type_eq→eq public public h = refl
type_eq→eq public random_static h = cc
type_eq→eq public random_private_resolvable h = cc
type_eq→eq public random_private_non_resolvable h = cc
type_eq→eq random_static public h = cc
type_eq→eq random_static random_static h = refl
type_eq→eq random_static random_private_resolvable h = cc
type_eq→eq random_static random_private_non_resolvable h = cc
type_eq→eq random_private_resolvable public h = cc
type_eq→eq random_private_resolvable random_static h = cc
type_eq→eq random_private_resolvable random_private_resolvable h = refl
type_eq→eq random_private_resolvable random_private_non_resolvable h = cc
type_eq→eq random_private_non_resolvable public h = cc
type_eq→eq random_private_non_resolvable random_static h = cc
type_eq→eq random_private_non_resolvable random_private_resolvable h = cc
type_eq→eq random_private_non_resolvable random_private_non_resolvable h = refl

entry-eq : (d e : Entry) → d.addr_type ≡ e.addr_type → d.addr ≡ e.addr → d ≡ e
entry-eq d e kind bytes = cc

-- The test decides whether the entry is among the others.
IsAmong-cases :
    (e : Entry) (es : List Entry)
    → ((any_equal e.addr e.addr_type es ≡ true) × IsAmong e es)
      ⊎ ((any_equal e.addr e.addr_type es ≡ false) × ¬ IsAmong e es)
unfolding any_equal
IsAmong-cases e [] = inr (refl, λ h. h)
IsAmong-cases e (d ∷ es) =
    elim (Bool-cases (type_eq d.addr_type e.addr_type && bytes_eq d.addr e.addr)) [
      | inl hit ↦
          let kind = type_eq→eq d.addr_type e.addr_type (ground arith) in
          let bytes = bytes_eq→eq d.addr e.addr (ground arith) in
          inl (rw hit refl, inl (entry-eq d e kind bytes))
      | inr miss ↦ elim (IsAmong-cases e es) [
        | inl (found, among) ↦ inl (rw (miss, found) refl, inr among)
        | inr (unknown, absent) ↦ inr (
          rw (miss, unknown) refl,
          λ h. elim h [ inl same ↦ differ d e miss same | inr later ↦ absent later ],
        )
      ]
    ]
  where
    differ :
        (d e : Entry) → (type_eq d.addr_type e.addr_type && bytes_eq d.addr e.addr) ≡ false → d ≢ e
    differ d e miss same =
        let alike : (type_eq d.addr_type e.addr_type && bytes_eq d.addr e.addr) ≡ true =
          ap (λ (x : Entry). type_eq x.addr_type e.addr_type && bytes_eq x.addr e.addr) same
          ∙ rw (type_eq_refl e.addr_type, bytes_eq_refl e.addr) refl in
        cc

AreDistinct-snoc :
    (es : List Entry) (e : Entry) → ¬ IsAmong e es → AreDistinct es → AreDistinct (es ++ e ∷ [])
AreDistinct-snoc [] e new h = (λ z. z, tt)
AreDistinct-snoc (d ∷ es) e new h = (
  λ among. elim (IsAmong-snoc d es e among) [
    | inl before ↦ h.0 before
    | inr same ↦ new (inl (sym same))
  ],
  AreDistinct-snoc es e (λ later. new (inr later)) h.1,
)
  where
    IsAmong-snoc :
        (d : Entry) (es : List Entry) (e : Entry)
        → IsAmong d (es ++ e ∷ [])
        → IsAmong d es ⊎ (e ≡ d)
    IsAmong-snoc d [] e (inl same) = inr same
    IsAmong-snoc d [] e (inr later) = elim later [ ]
    IsAmong-snoc d (c ∷ es) e (inl same) = inl (inl same)
    IsAmong-snoc d (c ∷ es) e (inr later) = elim (IsAmong-snoc d es e later) [
      | inl before ↦ inl (inr before)
      | inr last ↦ inr last
    ]

take-set :
    (n : ℕ) (xs : List Entry) (v : Entry)
    → n < length xs
    → take (suc n) (set xs n v) ≡ take n xs ++ v ∷ []
take-set n [] v h = absurd (omega arith)
take-set zero (x ∷ xs) v h = refl
take-set (suc n) (x ∷ xs) v h = ap (λ t. x ∷ t) (take-set n xs v (omega arith))

-- The entries in use.
unfoldable pub used : AcceptList → List Entry
used list = take list.len list.entries

entries_of-ok : (list : AcceptList) → IsAcceptList list → entries_of list ≡ ok (used list)
unfolding entries_of used
entries_of-ok list valid =
    let size = valid.capacity in
    let bound = valid.bounded in
    ap (λ es. slice es 0 list.len) (sym (take-append-drop list.len list.entries))
    ∙ slice_prefix (take list.len list.entries) (drop list.len list.entries) list.len
        (length-take list.len list.entries ∙ omega arith)

-- A membership test neither fails nor changes anything: it is one on the entries in use.
contains-ok :
    (list : AcceptList) (addr : List ℕ) (t : AddrType)
    → IsAcceptList list
    → contains list addr t ≡ ok (any_equal addr t (used list))
unfolding contains
contains-ok list addr t valid = rw (entries_of-ok list valid)

-- On a well-formed list, `add` does one of two things. If there are fewer than eight entries in use
-- and none of them has the address and the type that are given, it reports success and the entries
-- in use are those before with the new one behind them; if there are eight, or one of them has the
-- address and the type, it reports failure and leaves the list as it is. The list stays well formed,
-- so that no two entries in use have the same address and type.
pub add_lem :
    (list : AcceptList) (addr : List ℕ) (t : AddrType)
    → IsAcceptList list
    → (after : AcceptList) × (added : Bool) × (add list addr t ≡ ok (after, added))
      × IsAcceptList after
      × (((added ≡ true)
            × (list.len < 8)
            × ¬ IsAmong (record { addr_type = t; addr = addr }) (used list)
            × (used after ≡ used list ++ record { addr_type = t; addr = addr } ∷ []))
          ⊎ ((added ≡ false)
              × ((8 ≤ list.len) ⊎ IsAmong (record { addr_type = t; addr = addr }) (used list))
              × (after ≡ list)))
unfolding add used
add_lem list addr t valid =
    let size = valid.capacity in
    let bound = valid.bounded in
    let v : Entry = record { addr_type = t; addr = addr } in
    elim (Bool-cases (leb 8 list.len)) [
      | inl full ↦ (list, false, rw full, valid, inr (refl, inl (leb→le 8 list.len full), refl))
      | inr room ↦
          let little : list.len < 8 = ground arith in
          elim (IsAmong-cases v (used list)) [
            | inl (present, among) ↦ (
              list,
              false,
              rw (room, contains-ok list addr t valid, present),
              valid,
              inr (refl, inr among, refl),
            )
            | inr (new, absent) ↦
                let next : list.len + 1 ≡ suc list.len = omega arith in
                let bigger : take (list.len + 1) (set list.entries list.len v)
                    ≡ used list ++ v ∷ [] =
                  ap (λ n. take n (set list.entries list.len v)) next
                  ∙ take-set list.len list.entries v (omega arith) in
                let grown = AreDistinct-snoc (used list) v absent valid.no_duplicates in
                (
                  record { entries = set list.entries list.len v; len = list.len + 1 },
                  true,
                  rw (
                    room,
                    contains-ok list addr t valid,
                    new,
                    le→leb (list.len + 1) (length list.entries) (omega arith),
                  ),
                  record {
                    capacity = length-set list.entries list.len v ∙ size;
                    bounded = omega arith;
                    no_duplicates = rw bigger grown;
                  },
                  inl (refl, little, absent, bigger),
                )
          ]
    ]
