-- ===== src/Hw/Bonds/Laws.antt =====
-- What a store remembers.
use nrf_ble.Base.{
  ℕ, ◌≡◌, ◌≢◌, refl, arith, inl, inr, List, [], ◌∷◌, bytes_eq, bytes_eq→eq, bytes_eq_refl, Bool,
  true, false, Bool-cases, ◌||◌, Option, none, some, if◌then◌else◌,
}
use nrf_ble.Hw.Bonds.{BondInfo, Bonds, replace, fill_empty, save, find}

unfoldable pub has_empty : Bonds → Bool
has_empty [] = false
has_empty (none ∷ slots) = true
has_empty (some b ∷ slots) = has_empty slots

unfoldable pub is_known : Bonds → List ℕ → Bool
is_known [] peer = false
is_known (none ∷ slots) peer = is_known slots peer
is_known (some b ∷ slots) peer = bytes_eq b.addr peer || is_known slots peer

bytes_ne : (xs ys : List ℕ) → xs ≢ ys → bytes_eq xs ys ≡ false
bytes_ne xs ys differ = elim (Bool-cases (bytes_eq xs ys)) [
  | inl e ↦ absurd (differ (bytes_eq→eq xs ys e))
  | inr e ↦ e
]

-- Slots that differ from others only in the bond for one address, which they have.
record Updated (before after : Bonds) (info : BondInfo) : Type 0 where
  found : find after info.addr ≡ some info
  others : (q : List ℕ) → info.addr ≢ q → find after q ≡ find before q

replace-known :
    (bonds : Bonds) (info : BondInfo)
    → is_known bonds info.addr ≡ true
    → (after : Bonds) × (replace bonds info ≡ some after) × Updated bonds after info
unfolding is_known replace find
replace-known [] info known = cc
replace-known (none ∷ slots) info known =
    let (after, e, u) = replace-known slots info known in
    (none ∷ after, rw e, record { found = u.found; others = u.others })
replace-known (some b ∷ slots) info known = elim (Bool-cases (bytes_eq b.addr info.addr)) [
  | inl same ↦
      let same' = bytes_eq→eq b.addr info.addr same in
      (
        some info ∷ slots,
        rw same,
        record {
          found = rw (bytes_eq_refl info.addr);
          others = λ q differ. rw (same', bytes_ne info.addr q differ);
        },
      )
  | inr other ↦
      let (after, e, u) = replace-known slots info (ground arith) in
      (
        some b ∷ after,
        rw (other, e),
        record { found = rw other u.found; others = λ q differ. rw (u.others q differ) },
      )
]

replace-unknown :
    (bonds : Bonds) (info : BondInfo)
    → is_known bonds info.addr ≡ false
    → (replace bonds info ≡ none) × (find bonds info.addr ≡ none)
unfolding is_known replace find
replace-unknown [] info known = (refl, refl)
replace-unknown (none ∷ slots) info known =
    let (e, f) = replace-unknown slots info known in (rw e, f)
replace-unknown (some b ∷ slots) info known =
    let other : bytes_eq b.addr info.addr ≡ false = ground arith in
    let (e, f) = replace-unknown slots info (ground arith) in (rw (other, e), rw (other, f))

fill-room :
    (bonds : Bonds) (info : BondInfo)
    → is_known bonds info.addr ≡ false
    → has_empty bonds ≡ true
    → (after : Bonds) × (fill_empty bonds info ≡ some after) × Updated bonds after info
unfolding is_known has_empty fill_empty find
fill-room [] info known room = cc
fill-room (none ∷ slots) info known room = (
  some info ∷ slots,
  refl,
  record {
    found = rw (bytes_eq_refl info.addr);
    others = λ q differ. rw (bytes_ne info.addr q differ);
  },
)
fill-room (some b ∷ slots) info known room =
    let other : bytes_eq b.addr info.addr ≡ false = ground arith in
    let (after, e, u) = fill-room slots info (ground arith) room in
    (
      some b ∷ after,
      rw e,
      record { found = rw other u.found; others = λ q differ. rw (u.others q differ) },
    )

fill-full :
    (bonds : Bonds) (info : BondInfo) → has_empty bonds ≡ false → fill_empty bonds info ≡ none
unfolding has_empty fill_empty
fill-full [] info full = refl
fill-full (none ∷ slots) info full = cc
fill-full (some b ∷ slots) info full = rw (fill-full slots info full)

-- After `save`, `find` yields the saved bond for the peer, if the store knew the peer or had an
-- empty slot; otherwise it yields no bond for the peer. For any other address `find` yields what
-- it yielded before.
pub find-save :
    (bonds : Bonds) (peer ltk : List ℕ) (irk : Option (List ℕ))
    → (find (save bonds peer ltk irk) peer ≡ (
        if is_known bonds peer || has_empty bonds
        then some (record { addr = peer; ltk = ltk; irk = irk })
        else none))
      × ((q : List ℕ) → peer ≢ q → find (save bonds peer ltk irk) q ≡ find bonds q)
unfolding save
find-save bonds peer ltk irk =
    let info : BondInfo = record { addr = peer; ltk = ltk; irk = irk } in
    elim (Bool-cases (is_known bonds peer)) [
      | inl known ↦
          let (after, e, u) = replace-known bonds info known in
          (rw (save, e, known) u.found, rw (save, e) u.others)
      | inr unknown ↦
          let (e, f) = replace-unknown bonds info unknown in
          elim (Bool-cases (has_empty bonds)) [
            | inl room ↦
                let (after, g, u) = fill-room bonds info unknown room in
                (rw (save, e, g, unknown, room) u.found, rw (save, e, g) u.others)
            | inr full ↦
                let g = fill-full bonds info full in
                (rw (save, e, g, unknown, full) f, rw (save, e, g) (λ q differ. refl))
          ]
    ]
