-- ===== src/Hw/Ble/Scan/Filter.antt =====
-- The accept list as the filter of a scanner.
use nrf_ble.Base.{
  ℕ, ◌/◌, ◌^◌, ◌≡◌, refl, ap, ◌∙◌, arith, List, [], ◌∷◌, length, false, ◌||◌, ◌&&◌, none, bytes_eq,
}
use nrf_ble.Base.Results.{ok}
use nrf_ble.Base.Slices.{index-ok}
use nrf_ble.Ll.AcceptList
use nrf_ble.Ll.AcceptList.{Entry, any_equal}
use nrf_ble.Ll.Addr.{AddrType, public, type_eq, type_of_bits, parse}
use nrf_ble.Hw.Ble.{Ble, accept_list}
use nrf_ble.Hw.Ble.Scan.{on_advertiser, passes}

-- All entries are of devices with a public address.
abbrev pub ArePublic : List Entry → Type 0
ArePublic [] = Unit {0}
ArePublic (e ∷ rest) = (e.addr_type ≡ public) × ArePublic rest

not_public : (top : ℕ) → type_eq public (type_of_bits top) ≡ false
unfolding type_of_bits type_eq
not_public top = ground arith

any_equal-public :
    (addr : List ℕ) (kind : AddrType) (es : List Entry)
    → ArePublic es
    → type_eq public kind ≡ false
    → any_equal addr kind es ≡ false
unfolding any_equal
any_equal-public addr kind [] all other = refl
any_equal-public addr kind (e ∷ rest) all other =
    ap (λ k. (type_eq k kind && bytes_eq e.addr addr) || any_equal addr kind rest) all.0
    ∙ rw (other, any_equal-public addr kind rest all.1 other) refl

-- A scanner that filters by the accept list and does not look for a device to connect to. If all
-- entries in use are of public addresses, no advertiser is reported or answered, the listed ones
-- included: the state stays as it is.
pub on_advertiser-public :
    (b : Ble) (addr payload : List ℕ) (adv_type rssi : ℕ) (es : List Entry)
    → length addr ≡ 6
    → b.connect_target ≡ none
    → b.scan_params.filter_policy ≡ accept_list
    → AcceptList.entries_of b.devices ≡ ok es
    → ArePublic es
    → on_advertiser addr payload adv_type rssi b ≡ ok b
unfolding on_advertiser passes AcceptList.contains parse
on_advertiser-public b addr payload adv_type rssi es size free filter uses all =
    let (last, reads) = index-ok {E = ⊥} addr 5 (omega arith) in
    simp
      (
        free,
        filter,
        reads,
        uses,
        any_equal-public addr (type_of_bits (last / 2 ^ 6)) es all (not_public (last / 2 ^ 6)),
      )
      refl
