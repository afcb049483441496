-- ===== src/Hw/Conn/Att/Discovery.antt =====
-- Discovery: what a client that continues behind the last handle finds.
use nrf_ble.Base.{
  ℕ, ◌+◌, ◌/◌, ◌%◌, ◌^◌, ◌≤◌, ◌<◌, ◌≡◌, refl, ◌∙◌, arith, Bool-cases, if◌then◌else◌, List, [], ◌∷◌,
  ◌++◌, append-nil, Bool, true, false, ◌⊎◌, inl, inr, none, some,
}
use nrf_ble.Base.Results.{ok}
use nrf_ble.Ll.Pdu.Fields.{le16, from_le16}
use nrf_ble.Hw.Conn.Gatt.{in_range, only_if, by_type}
use nrf_ble.Hw.Conn.Att.{read_by_type, value_list, add_values, att_response_last_handle}

-- The request to list characteristics.
abbrev pub characteristics : ℕ → ℕ → List ℕ
characteristics start end = 0x08 ∷ [] ++ le16 0x2803 ++ le16 start ++ le16 end

-- What the server has of them, by which of the two are asked for.
abbrev found : Bool → Bool → List (ℕ × List ℕ)
found rx tx =
    only_if rx 2 (
      0x08 ∷ 3 ∷ 0 ∷ 0x9E ∷ 0xCA ∷ 0xDC ∷ 0x24 ∷ 0x0E ∷ 0xE5 ∷ 0xA9 ∷ 0xE0 ∷ 0x93 ∷ 0xF3 ∷ 0xA3
      ∷ 0xB5 ∷ 0x02 ∷ 0x00 ∷ 0x40 ∷ 0x6E ∷ [])
    ++ only_if tx 4 (
        0x20 ∷ 5 ∷ 0 ∷ 0x9E ∷ 0xCA ∷ 0xDC ∷ 0x24 ∷ 0x0E ∷ 0xE5 ∷ 0xA9 ∷ 0xE0 ∷ 0x93 ∷ 0xF3 ∷ 0xA3
        ∷ 0xB5 ∷ 0x03 ∷ 0x00 ∷ 0x40 ∷ 0x6E ∷ [])

by_type-found :
    (start end : ℕ) → by_type start end 0x2803 ≡ found (in_range start end 2) (in_range start end 4)
unfolding by_type
by_type-found start end = append-nil (found (in_range start end 2) (in_range start end 4))

last_handle :
    (rx tx : Bool)
    → att_response_last_handle (value_list 0x09 64 (found rx tx))
      ≡ ok (if tx then some 4 else if rx then some 2 else none)
unfolding att_response_last_handle value_list add_values
last_handle true true = refl
last_handle true false = refl
last_handle false true = refl
last_handle false false = refl

listed :
    (start end : ℕ)
    → start < 2 ^ 16
    → end < 2 ^ 16
    → read_by_type (characteristics start end)
      ≡ ok (value_list 0x09 64 (found (in_range start end 2) (in_range start end 4)))
unfolding read_by_type
listed start end hs he =
    let s : from_le16 (start % 256) (start / 2 ^ 8 % 256) ≡ start = omega arith in
    let e : from_le16 (end % 256) (end / 2 ^ 8 % 256) ≡ end = omega arith in
    rw (s, e, by_type-found start end)

ends_with :
    (start end : ℕ) (rx tx : Bool)
    → start < 2 ^ 16
    → end < 2 ^ 16
    → in_range start end 2 ≡ rx
    → in_range start end 4 ≡ tx
    → (rsp : List ℕ) × (read_by_type (characteristics start end) ≡ ok rsp)
      × (att_response_last_handle rsp ≡ ok (if tx then some 4 else if rx then some 2 else none))
ends_with start end rx tx hs he r t =
    (value_list 0x09 64 (found rx tx), listed start end hs he ∙ rw (r, t), last_handle rx tx)

-- The server answers the request for a range, and either it has nothing in it, and the client finds
-- no last handle, or the client finds a last handle in it, and none in the response to the request
-- for the range behind it.
abbrev pub Continues : ℕ → ℕ → Type 0
Continues start end =
    (rsp : List ℕ) × (read_by_type (characteristics start end) ≡ ok rsp)
    × (((att_response_last_handle rsp ≡ ok none) × (by_type start end 0x2803 ≡ []))
        ⊎ ((h : ℕ) × (rsp' : List ℕ) × (att_response_last_handle rsp ≡ ok (some h))
            × (start ≤ h)
            × (h ≤ end)
            × (read_by_type (characteristics (h + 1) end) ≡ ok rsp')
            × (att_response_last_handle rsp' ≡ ok none)))

-- A client that lists the characteristics of a range, and goes on behind the last handle of the
-- response, is done after the next response: for every range, the server answers, and either
-- `att_response_last_handle` finds no entry, and the server has none in the range, or it finds a
-- handle of the range, and in the response for the range behind it no entry.
pub read_by_type-Continues : (start end : ℕ) → start < 2 ^ 16 → end < 2 ^ 16 → Continues start end
read_by_type-Continues start end hs he = elim (Bool-cases (in_range start end 4)) [
  | inl t ↦ elim (Bool-cases (in_range start end 2)) [
    | inl r ↦ go_on true r t
    | inr r ↦ go_on false r t
  ]
  | inr t ↦ elim (Bool-cases (in_range start end 2)) [
    | inl r ↦
        let (rsp, e, f) = ends_with start end true false hs he r t in
        let (rsp', e', f') =
          ends_with 3 end false false (omega arith) he (ground arith) (ground arith) in
        (rsp, e, inr (2, rsp', f, ground arith, ground arith, e', f'))
    | inr r ↦
        let (rsp, e, f) = ends_with start end false false hs he r t in
        (rsp, e, inl (f, by_type-found start end ∙ rw (r, t)))
  ]
]
  where
    go_on :
        (rx : Bool) → in_range start end 2 ≡ rx → in_range start end 4 ≡ true → Continues start end
    go_on rx r t =
        let (rsp, e, f) = ends_with start end rx true hs he r t in
        let (rsp', e', f') =
          ends_with 5 end false false (omega arith) he (ground arith) (ground arith) in
        (rsp, e, inr (4, rsp', f, ground arith, ground arith, e', f'))
