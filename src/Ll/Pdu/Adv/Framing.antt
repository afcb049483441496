-- ===== src/Ll/Pdu/Adv/Framing.antt =====
-- `encode_with` around a writer: the two tests, the header and the bytes behind.
use nrf_ble.Base.{ℕ, suc, ◌+◌, ◌-◌, ◌%◌, ◌≤◌, ◌≡◌, refl, ap, arith, Bool, ltb, lt_false}
use nrf_ble.Base.{Bool-cases, inl, inr, le→leb, drop-drop}
use nrf_ble.Base.{List, [], ◌∷◌, ◌++◌, length, take, drop}
use nrf_ble.Base.{length-take, length-drop}
use nrf_ble.Base.Results.{ok}
use nrf_ble.Base.Slices.{copy_to_fill}
use nrf_ble.Ll.Pdu.Header
use nrf_ble.Ll.Pdu.Header.{AdvHdr}
use nrf_ble.Ll.Pdu.Adv.{}
use nrf_ble.Ll.Pdu.Adv.Encode.{Writer, encode_with}
use nrf_ble.Ll.Pdu.Adv.Layout.{Writes, header_of, with_header, written}

drop_two : (n x y : ℕ) (xs : List ℕ) → drop (2 + n) (x ∷ y ∷ xs) ≡ drop n xs
drop_two n x y xs = ap (λ (k : ℕ). drop k (x ∷ y ∷ xs)) two
  where
    two : 2 + n ≡ suc (suc n)
    two = omega arith

-- The part of `encode_with` behind its two tests.
encode_with-ok :
    (out payload : List ℕ) (kind n : ℕ) (tx rx : Bool) (write : Writer)
    → Writes n write payload
    → n ≤ 63
    → 2 + n ≤ length out
    → encode_with out kind tx rx n write
      ≡ ok (2 + n, with_header (header_of kind tx rx n) payload ++ drop (2 + n) out)
unfolding encode_with
encode_with-ok out payload kind n tx rx write fills fits room =
    let h = header_of kind tx rx n in
    let h0 = (Header.encode h).0 in
    let h1 = (Header.encode h).1 in
    let byte : n % 256 ≡ n = omega arith in
    let size : 2 + n - 2 ≡ n = omega arith in
    let behind = length-drop 2 out in
    let body = take n (drop 2 out) in
    let body_size : length body ≡ n = omega (arith, length-take n (drop 2 out)) in
    rw (
      lt_false 63 n fits,
      lt_false (length out) (2 + n) room,
      byte,
      copy_to_fill [] out 0 2 refl (h0 ∷ h1 ∷ []) refl (omega arith),
      le→leb 2 (2 + n) (omega arith),
      le→leb (2 + n) (length (h0 ∷ h1 ∷ drop 2 out)) (omega arith),
      size,
      fills body body_size,
      drop_two n h0 h1 (drop 2 out),
      drop-drop n 2 out,
    )

pub encode_with_lem :
    (out payload : List ℕ) (kind n : ℕ) (tx rx : Bool) (write : Writer)
    → Writes n write payload
    → length payload ≡ n
    → encode_with out kind tx rx n write
      ≡ written out (header_of kind tx rx (length payload)) payload
encode_with_lem out payload kind n tx rx write fills size = elim (Bool-cases (ltb 63 n)) [
  | inl long ↦ rw (size, long) (unfold encode_with in rw long)
  | inr fits ↦ elim (Bool-cases (ltb (length out) (2 + n))) [
    | inl small ↦ rw (size, fits, small) (unfold encode_with in rw (fits, small))
    | inr room ↦
        rw (size, fits, room)
          (encode_with-ok out payload kind n tx rx write fills (ground arith) (ground arith))
  ]
]
