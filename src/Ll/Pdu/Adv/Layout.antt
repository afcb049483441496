-- ===== src/Ll/Pdu/Adv/Layout.antt =====
-- The layout of each advertising PDU on air: what the closures of `encode_typed` are to write.
use nrf_ble.Base.{ℕ, ◌+◌, ◌≤◌, ◌≡◌, Bool, false, ltb}
use nrf_ble.Base.{List, [], ◌∷◌, ◌++◌, length, drop, if◌then◌else◌}
use nrf_ble.Base.Results.{ok, err, Error, Result, buffer_too_small, invalid_length}
use nrf_ble.Ll.Pdu.Header
use nrf_ble.Ll.Pdu.Header.{AdvHdr}
use nrf_ble.Ll.Pdu.Fields.{encode_aux}
use nrf_ble.Ll.Pdu.Adv.{
  AdvPdu, adv_ind, adv_direct_ind, adv_nonconn_ind, scan_req, scan_rsp, connect_req, adv_scan_ind,
  adv_ext_ind, aux_adv_ext_ind, aux_adv_ext_ind_with_eh, periodic_adv,
}
use nrf_ble.Ll.Pdu.Adv.Encode.{Writer}

abbrev pub three : ℕ × ℕ × ℕ → List ℕ
three t = t.0 ∷ t.1 ∷ t.2 ∷ []

-- The payload behind the two header bytes.
abbrev pub layout : AdvPdu → List ℕ
layout (adv_ind a d) = a ++ d
layout (adv_direct_ind a b) = a ++ b
layout (adv_nonconn_ind a d) = a ++ d
layout (scan_req a b) = a ++ b
layout (scan_rsp a d) = a ++ d
layout (connect_req a b l) = a ++ b ++ l
layout (adv_scan_ind a d) = a ++ d
layout (adv_ext_ind a mode adi p) = a ++ (mode ∷ []) ++ (adi.0 ∷ adi.1 ∷ []) ++ three (encode_aux p)
layout (aux_adv_ext_ind a adi kind d) = a ++ (adi.0 ∷ adi.1 ∷ []) ++ (1 ∷ []) ++ (kind ∷ []) ++ d
layout (aux_adv_ext_ind_with_eh a adi ehs d) = a ++ (adi.0 ∷ adi.1 ∷ []) ++ ehs ++ d
layout (periodic_adv mode adi) = mode ∷ adi.0 ∷ adi.1 ∷ []

-- The array lengths that Rust's types state, for an extended header that is not empty.
abbrev pub HasSizes : AdvPdu → Type 0
HasSizes (adv_ind a d) = length a ≡ 6
HasSizes (adv_direct_ind a b) = (length a ≡ 6) × (length b ≡ 6)
HasSizes (adv_nonconn_ind a d) = length a ≡ 6
HasSizes (scan_req a b) = (length a ≡ 6) × (length b ≡ 6)
HasSizes (scan_rsp a d) = length a ≡ 6
HasSizes (connect_req a b l) = (length a ≡ 6) × (length b ≡ 6) × (length l ≡ 22)
HasSizes (adv_scan_ind a d) = length a ≡ 6
HasSizes (adv_ext_ind a mode adi p) = length a ≡ 6
HasSizes (aux_adv_ext_ind a adi kind d) = length a ≡ 6
HasSizes (aux_adv_ext_ind_with_eh a adi ehs d) = (length a ≡ 6) × (1 ≤ length ehs)
HasSizes (periodic_adv mode adi) = Unit {0}

-- A writer that fills a slice of `n` bytes with the given ones.
abbrev pub Writes : ℕ → Writer → List ℕ → Type 0
Writes n write bytes = (o : List ℕ) → length o ≡ n → write o ≡ ok bytes

-- The header that is written: `ChSel` is always clear.
abbrev pub header_of : ℕ → Bool → Bool → ℕ → AdvHdr
header_of kind tx rx size = record {
  pdu_type = kind;
  ch_sel = false;
  tx_add = tx;
  rx_add = rx;
  len = size;
}

abbrev pub with_header : AdvHdr → List ℕ → List ℕ
with_header h payload = (Header.encode h).0 ∷ (Header.encode h).1 ∷ payload

-- What `encode_with` returns for a payload that its writer can write.
abbrev pub written : List ℕ → AdvHdr → List ℕ → Result Error (ℕ × List ℕ)
written out h payload =
    if ltb 0x3F (length payload)
    then err invalid_length
    else if ltb (length out) (2 + length payload)
    then err buffer_too_small
    else ok (2 + length payload, with_header h payload ++ drop (2 + length payload) out)
