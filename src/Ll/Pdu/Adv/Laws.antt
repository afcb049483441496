-- ===== src/Ll/Pdu/Adv/Laws.antt =====
-- What `encode_typed` returns on every PDU, buffer and flag.
use nrf_ble.Base.{ℕ, ◌+◌, ◌≡◌, refl, ap, ◌∙◌, arith, Bool, false, ltb, if◌then◌else◌}
use nrf_ble.Base.{List, [], ◌∷◌, ◌++◌, length, length-append}
use nrf_ble.Base.Results.{err, buffer_too_small}
use nrf_ble.Ll.Pdu.Header.{AdvHdr}
use nrf_ble.Ll.Pdu.Fields.{encode_aux}
use nrf_ble.Ll.Pdu.Adv.{
  AdvPdu, adv_ind, adv_direct_ind, adv_nonconn_ind, scan_req, scan_rsp, connect_req, adv_scan_ind,
  adv_ext_ind, aux_adv_ext_ind, aux_adv_ext_ind_with_eh, periodic_adv,
}
use nrf_ble.Ll.Pdu.Adv.Encode.{encode_pdu, encode_typed, pdu_type}
use nrf_ble.Ll.Pdu.Adv.Encode.{write_addr_data, write_two_addrs, write_connect, write_ext}
use nrf_ble.Ll.Pdu.Adv.Encode.{write_aux, write_aux_eh, write_periodic}
use nrf_ble.Ll.Pdu.Adv.Layout.{three, layout, HasSizes, header_of, written}
use nrf_ble.Ll.Pdu.Adv.Framing.{encode_with_lem}
use nrf_ble.Ll.Pdu.Adv.Writers.{
  write_addr_data_lem, write_two_addrs_lem, write_connect_lem, write_ext_lem, write_aux_lem,
  write_aux_eh_lem, write_periodic_lem,
}

-- The address-type bits that reach the header.
abbrev pub sent_tx : AdvPdu → Bool → Bool
sent_tx (adv_nonconn_ind _ _) tx = false
sent_tx _ tx = tx

abbrev pub sent_rx : AdvPdu → Bool → Bool
sent_rx (scan_req _ _) rx = rx
sent_rx (connect_req _ _ _) rx = rx
sent_rx _ rx = false

abbrev pub header : AdvPdu → Bool → Bool → AdvHdr
header pdu tx rx = header_of (pdu_type pdu) (sent_tx pdu tx) (sent_rx pdu rx) (length (layout pdu))

sum : (a d : List ℕ) (n : ℕ) → length a ≡ n → length (a ++ d) ≡ n + length d
sum a d n h = length-append a d ∙ ap (λ (k : ℕ). k + length d) h

encode_pdu_lem :
    (pdu : AdvPdu) (out : List ℕ) (tx rx : Bool)
    → HasSizes pdu
    → encode_pdu pdu out tx rx ≡ written out (header pdu tx rx) (layout pdu)
unfolding encode_pdu pdu_type
encode_pdu_lem (adv_ind a d) out tx rx h =
    encode_with_lem out (a ++ d) 0 _ tx false (write_addr_data a d) (write_addr_data_lem a h d)
      (sum a d 6 h)
encode_pdu_lem (adv_direct_ind a b) out tx rx h =
    let size = sum a b 6 h.0 ∙ ap (λ (n : ℕ). 6 + n) h.1 in
    encode_with_lem out (a ++ b) 1 12 tx false (write_two_addrs a b)
      (write_two_addrs_lem a h.0 b h.1) size
encode_pdu_lem (adv_nonconn_ind a d) out tx rx h =
    encode_with_lem out (a ++ d) 2 _ false false (write_addr_data a d) (write_addr_data_lem a h d)
      (sum a d 6 h)
encode_pdu_lem (scan_req a b) out tx rx h =
    let size = sum a b 6 h.0 ∙ ap (λ (n : ℕ). 6 + n) h.1 in
    encode_with_lem out (a ++ b) 3 12 tx rx (write_two_addrs a b) (write_two_addrs_lem a h.0 b h.1)
      size
encode_pdu_lem (scan_rsp a d) out tx rx h =
    encode_with_lem out (a ++ d) 4 _ tx false (write_addr_data a d) (write_addr_data_lem a h d)
      (sum a d 6 h)
encode_pdu_lem (connect_req a b l) out tx rx h =
    let size : length (a ++ b ++ l) ≡ 34 =
      omega (arith, length-append a b, length-append (a ++ b) l) in
    encode_with_lem out (a ++ b ++ l) 5 34 tx rx (write_connect a b l)
      (write_connect_lem a h.0 b l h.1 h.2) size
encode_pdu_lem (adv_scan_ind a d) out tx rx h =
    encode_with_lem out (a ++ d) 6 _ tx false (write_addr_data a d) (write_addr_data_lem a h d)
      (sum a d 6 h)
encode_pdu_lem (adv_ext_ind a mode adi p) out tx rx h =
    let am = a ++ (mode ∷ []) in
    let ax = am ++ (adi.0 ∷ adi.1 ∷ []) in
    let size : length (ax ++ three (encode_aux p)) ≡ 12 = omega (
      arith,
      length-append a (mode ∷ []),
      length-append am (adi.0 ∷ adi.1 ∷ []),
      length-append ax (three (encode_aux p)),
    ) in
    encode_with_lem out (ax ++ three (encode_aux p)) 7 12 tx false (write_ext a mode adi p)
      (write_ext_lem a h mode adi p) size
encode_pdu_lem (aux_adv_ext_ind a adi kind d) out tx rx h =
    let ax = a ++ (adi.0 ∷ adi.1 ∷ []) in
    let al = ax ++ (1 ∷ []) in
    let ak = al ++ (kind ∷ []) in
    let size : length (ak ++ d) ≡ 10 + length d = omega (
      arith,
      length-append a (adi.0 ∷ adi.1 ∷ []),
      length-append ax (1 ∷ []),
      length-append al (kind ∷ []),
      length-append ak d,
    ) in
    encode_with_lem out (ak ++ d) 7 _ tx false (write_aux a adi kind d)
      (write_aux_lem a h adi kind d) size
encode_pdu_lem (aux_adv_ext_ind_with_eh a adi ehs d) out tx rx h =
    let ax = a ++ (adi.0 ∷ adi.1 ∷ []) in
    let ae = ax ++ ehs in
    let size : length (ae ++ d) ≡ 8 + length ehs + length d =
      omega
        (arith, length-append a (adi.0 ∷ adi.1 ∷ []), length-append ax ehs, length-append ae d) in
    encode_with_lem out (ae ++ d) 7 _ tx false (write_aux_eh a adi ehs d)
      (write_aux_eh_lem a h.0 adi ehs d h.1) size
encode_pdu_lem (periodic_adv mode adi) out tx rx h =
    encode_with_lem out (layout (periodic_adv mode adi)) 7 3 tx false (write_periodic mode adi)
      (write_periodic_lem mode adi) refl

-- On every PDU whose arrays have their sizes and whose own extended header, if it has one, is not
-- empty, every output and both address-type flags: `encode_typed` writes the PDU's layout behind its
-- header at the front of the output, keeps the rest and returns the length; or it reports a payload
-- above 63 bytes as an invalid length, or an output that is too short. It does not panic on these.
pub encode_typed_lem :
    (pdu : AdvPdu) (out : List ℕ) (tx rx : Bool)
    → HasSizes pdu
    → encode_typed pdu out tx rx ≡ (
        if ltb (length out) 2
        then err buffer_too_small
        else written out (header pdu tx rx) (layout pdu))
unfolding encode_typed
encode_typed_lem pdu out tx rx h = rw (encode_pdu_lem pdu out tx rx h)
