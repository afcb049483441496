-- ===== src/Ll/Pdu/Adv/RoundTrip.antt =====
-- Decoding what `encode_typed` writes.
use nrf_ble.Base.{ℕ, suc, ◌+◌, ◌≤◌, ◌<◌, ◌≡◌, ◌≢◌, refl, ap, ◌∙◌, arith, Bool}
use nrf_ble.Base.{List, [], ◌∷◌, ◌++◌, length, drop, length-append, lt_false, eq→==}
use nrf_ble.Base.{take-append, drop-append, ne→==, le→leb, append_assoc}
use nrf_ble.Base.Slices.{slice_suffix}
use nrf_ble.Base.Results.{ok}
use nrf_ble.Ll.Pdu.Header.Laws.{decode-encode}
use nrf_ble.Ll.Pdu.Fields.{AuxPtr, decode_aux}
use nrf_ble.Ll.Pdu.Fields.Laws.{decode_aux-encode_aux}
use nrf_ble.Ll.Pdu.Adv.{
  AdvPdu, adv_ind, adv_direct_ind, adv_nonconn_ind, scan_req, scan_rsp, connect_req, adv_scan_ind,
  adv_ext_ind, aux_adv_ext_ind, aux_adv_ext_ind_with_eh, periodic_adv,
}
use nrf_ble.Ll.Pdu.Adv.{split6, decode_ext, decode_payload, decode}
use nrf_ble.Ll.Pdu.Adv.Encode.{encode_typed, pdu_type}
use nrf_ble.Ll.Pdu.Adv.Layout.{layout, HasSizes, with_header}
use nrf_ble.Ll.Pdu.Adv.Laws.{header, encode_typed_lem}

split6-append : (a d : List ℕ) → length a ≡ 6 → split6 (a ++ d) ≡ ok (a, d)
unfolding split6
split6-append a d h =
    let size = length-append a d in
    rw (lt_false (length (a ++ d)) 6 (omega arith), take-append 6 a d h, drop-append 6 a d h)

-- What arrives: an auxiliary packet with its own extended header arrives as a plain one.
abbrev pub arrives : AdvPdu → AdvPdu
arrives (aux_adv_ext_ind_with_eh a adi (n ∷ kind ∷ fields) d) = aux_adv_ext_ind a adi kind d
arrives pdu = pdu

-- What a PDU has to meet beyond its sizes to be told from the others: an auxiliary pointer in its
-- bits, an extended header that begins with its length and is not empty, and for an auxiliary
-- packet a payload that has not the 12 bytes of a primary one.
abbrev pub IsDistinct : AdvPdu → Type 0
IsDistinct (adv_ext_ind a mode adi p) = (p.channel < 64) × (p.offset < 1024) × (p.phy < 4)
IsDistinct (aux_adv_ext_ind a adi kind d) = length d ≢ 2
IsDistinct (aux_adv_ext_ind_with_eh a adi (n ∷ kind ∷ fields) d) =
    (n ≡ 1 + length fields) × (length fields + length d ≢ 2)
IsDistinct (aux_adv_ext_ind_with_eh a adi _ d) = ⊥
IsDistinct pdu = Unit {0}

decode_ext_primary :
    (a : List ℕ) (mode : ℕ) (adi : ℕ × ℕ) (p : AuxPtr)
    → length a ≡ 6
    → p.channel < 64
    → p.offset < 1024
    → p.phy < 4
    → decode_ext (layout (adv_ext_ind a mode adi p)) ≡ ok (adv_ext_ind a mode adi p)
unfolding decode_ext
decode_ext_primary (a0 ∷ a1 ∷ a2 ∷ a3 ∷ a4 ∷ a5 ∷ []) mode adi p h hc ho hp =
    ap (λ t. ok (adv_ext_ind (a0 ∷ a1 ∷ a2 ∷ a3 ∷ a4 ∷ a5 ∷ []) mode adi t))
      (decode_aux-encode_aux p hc ho hp)
decode_ext_primary _ mode adi p h hc ho hp = absurd (omega arith)

-- An auxiliary packet whose extended header has `n` bytes behind its length.
decode_ext_aux :
    (a : List ℕ) (adi : ℕ × ℕ) (n kind : ℕ) (fields d : List ℕ)
    → length a ≡ 6
    → n ≡ 1 + length fields
    → length fields + length d ≢ 2
    → decode_ext (a ++ (adi.0 ∷ adi.1 ∷ []) ++ (n ∷ kind ∷ fields) ++ d)
      ≡ ok (aux_adv_ext_ind a adi kind d)
unfolding decode_ext
decode_ext_aux (a0 ∷ a1 ∷ a2 ∷ a3 ∷ a4 ∷ a5 ∷ []) adi n kind fields d h hn differ =
    let front = a0 ∷ a1 ∷ a2 ∷ a3 ∷ a4 ∷ a5 ∷ adi.0 ∷ adi.1 ∷ n ∷ kind ∷ fields in
    let size = length-append fields d in
    rw (
      ne→== (length (front ++ d)) 12 (omega arith),
      le→leb 10 (length (front ++ d)) (omega arith),
      slice_suffix front d (9 + n) (length (front ++ d)) (omega arith) refl,
      le→leb (9 + n) (length (front ++ d)) (omega arith),
    )
decode_ext_aux _ adi n kind fields d h hn differ = absurd (omega arith)

-- The `match` on the type, on the payload of a PDU of that type.
decode_payload_lem :
    (pdu : AdvPdu)
    → HasSizes pdu
    → IsDistinct pdu
    → decode_payload (pdu_type pdu) (layout pdu) ≡ ok (arrives pdu)
unfolding decode_payload pdu_type
decode_payload_lem (adv_ind a d) h x = rw (split6-append a d h)
decode_payload_lem (adv_direct_ind a b) h x = rw (split6-append a b h.0, eq→== _ 6 h.1)
decode_payload_lem (adv_nonconn_ind a d) h x = rw (split6-append a d h)
decode_payload_lem (scan_req a b) h x = rw (split6-append a b h.0, eq→== _ 6 h.1)
decode_payload_lem (scan_rsp a d) h x = rw (split6-append a d h)
decode_payload_lem (connect_req a b l) h x =
    let size : length (b ++ l) ≡ 28 = omega (arith, length-append b l) in
    rw (
      append_assoc a b l,
      split6-append a (b ++ l) h.0,
      eq→== (length (b ++ l)) 28 size,
      take-append 6 b l h.1,
      drop-append 6 b l h.1,
    )
decode_payload_lem (adv_scan_ind a d) h x = rw (split6-append a d h)
decode_payload_lem (adv_ext_ind a mode adi p) h x = decode_ext_primary a mode adi p h x.0 x.1 x.2
decode_payload_lem (aux_adv_ext_ind a adi kind d) h x =
    rw (append_assoc (a ++ (adi.0 ∷ adi.1 ∷ [])) (1 ∷ []) (kind ∷ []))
      (decode_ext_aux a adi 1 kind [] d h refl (λ e. x (omega arith)))
decode_payload_lem (aux_adv_ext_ind_with_eh a adi (n ∷ kind ∷ fields) d) h x =
    decode_ext_aux a adi n kind fields d h.0 x.0 x.1
decode_payload_lem (aux_adv_ext_ind_with_eh a adi [] d) h x = absurd x
decode_payload_lem (aux_adv_ext_ind_with_eh a adi (n ∷ []) d) h x = absurd x
decode_payload_lem (periodic_adv mode adi) h x = unfold decode_ext in refl

pdu_type-le : (pdu : AdvPdu) → pdu_type pdu ≤ 7
unfolding pdu_type
pdu_type-le (adv_ind a d) = omega arith
pdu_type-le _ = omega arith

-- A well-formed PDU with at most 63 payload bytes, written into an output with room for it, is
-- decoded from the written bytes to itself (an auxiliary packet with its own extended header, to
-- the plain auxiliary packet with the header's type).
pub decode-encode_typed :
    (pdu : AdvPdu) (out : List ℕ) (tx rx : Bool)
    → HasSizes pdu
    → IsDistinct pdu
    → length (layout pdu) ≤ 63
    → 2 + length (layout pdu) ≤ length out
    → (sent : List ℕ) × (encode_typed pdu out tx rx
        ≡ ok (length sent, sent ++ drop (length sent) out))
      × (decode sent ≡ ok (arrives pdu))
unfolding decode
decode-encode_typed pdu out tx rx h x fits room =
    let n = length (layout pdu) in
    let two : 2 + n ≡ suc (suc n) = omega arith in
    let head = header pdu tx rx in
    (
      with_header head (layout pdu),
      encode_typed_lem pdu out tx rx h
          ∙ rw
              (
                lt_false (length out) 2 (omega arith),
                lt_false 63 n fits,
                lt_false (length out) (2 + n) room,
              )
              (ap (λ (k : ℕ). ok (k, with_header head (layout pdu) ++ drop k out)) two),
      rw (decode-encode head (pdu_type-le pdu) (omega arith), eq→== n n refl)
          (decode_payload_lem pdu h x),
    )

-- An auxiliary packet with two bytes of advertising data has the 12 payload bytes of a primary
-- packet, and is taken for one: its type and data become the auxiliary pointer.
pub decode_two_bytes :
    (a : List ℕ) (adi : ℕ × ℕ) (kind d0 d1 : ℕ)
    → length a ≡ 6
    → decode_payload 7 (layout (aux_adv_ext_ind a adi kind (d0 ∷ d1 ∷ [])))
      ≡ ok (adv_ext_ind a adi.0 (adi.1, 1) (decode_aux (kind, d0, d1)))
unfolding decode_payload decode_ext
decode_two_bytes (a0 ∷ a1 ∷ a2 ∷ a3 ∷ a4 ∷ a5 ∷ []) adi kind d0 d1 h = refl
decode_two_bytes _ adi kind d0 d1 h = absurd (omega arith)
