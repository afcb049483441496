-- ===== src/Ll/Pdu/Adv/Encode.antt =====
-- `AdvPdu::encode_typed` and its closures, which write the payload into `out[2..total]`.
use nrf_ble.Base.{ℕ, ◌+◌, ◌-◌, ◌%◌, List, [], ◌∷◌, ◌++◌, Bool, false, length, take, drop, ltb}
use nrf_ble.Base.{if◌then◌else◌}
use nrf_ble.Base.Results.{Result, ok, err, Error, buffer_too_small, invalid_length, ◌>>=◌}
use nrf_ble.Base.Results.{index, slice, copy_to, put}
use nrf_ble.Ll.Pdu.Header
use nrf_ble.Ll.Pdu.Header.{AdvHdr, pdu_adv_ind, pdu_adv_direct_ind, pdu_adv_nonconn_ind}
use nrf_ble.Ll.Pdu.Header.{pdu_scan_req, pdu_scan_rsp, pdu_connect_req, pdu_adv_scan_ind}
use nrf_ble.Ll.Pdu.Header.{pdu_adv_ext_ind}
use nrf_ble.Ll.Pdu.Fields.{AuxPtr, encode_aux}
use nrf_ble.Ll.Pdu.Adv.{
  AdvPdu, adv_ind, adv_direct_ind, adv_nonconn_ind, scan_req, scan_rsp, connect_req, adv_scan_ind,
  adv_ext_ind, aux_adv_ext_ind, aux_adv_ext_ind_with_eh, periodic_adv,
}

abbrev pub Writer : Type 0
Writer = List ℕ → Result Error (List ℕ)

-- The number of bytes written, and the output.
unfoldable pub encode_with : List ℕ → ℕ → Bool → Bool → ℕ → Writer → Result Error (ℕ × List ℕ)
encode_with out pdu_type tx_add rx_add payload_len write_payload =
    let total = 2 + payload_len in
    let (h0, h1) = Header.encode (record {
      pdu_type = pdu_type;
      ch_sel = false;
      tx_add = tx_add;
      rx_add = rx_add;
      len = payload_len % 256;
    }) in
    if ltb 0x3F payload_len
    then err invalid_length
    else if ltb (length out) total
    then err buffer_too_small
    else (do
      out ← copy_to out 0 2 (h0 ∷ h1 ∷ [])
      o ← slice out 2 total
      o ← write_payload o
      ok (total, take 2 out ++ o ++ drop total out))

unfoldable pub write_addr_data : List ℕ → List ℕ → Writer
write_addr_data addr payload o = do o ← copy_to o 0 6 addr; copy_to o 6 (length o) payload

unfoldable pub write_two_addrs : List ℕ → List ℕ → Writer
write_two_addrs a b o = do o ← copy_to o 0 6 a; copy_to o 6 12 b

unfoldable pub write_connect : List ℕ → List ℕ → List ℕ → Writer
write_connect a b ll_data o = do o ← copy_to o 0 6 a; o ← copy_to o 6 12 b; copy_to o 12 34 ll_data

unfoldable pub write_ext : List ℕ → ℕ → ℕ × ℕ → AuxPtr → Writer
write_ext addr mode adi aux_ptr o =
    let (x0, x1, x2) = encode_aux aux_ptr in
    (do
      o ← copy_to o 0 6 addr
      o ← put o 6 mode
      o ← copy_to o 7 9 (adi.0 ∷ adi.1 ∷ [])
      copy_to o 9 12 (x0 ∷ x1 ∷ x2 ∷ []))

unfoldable pub write_aux : List ℕ → ℕ × ℕ → ℕ → List ℕ → Writer
write_aux addr adi ext_type payload o = do
  o ← copy_to o 0 6 addr
  o ← copy_to o 6 8 (adi.0 ∷ adi.1 ∷ [])
  o ← put o 8 1
  o ← put o 9 ext_type
  copy_to o 10 (length o) payload

unfoldable pub write_aux_eh : List ℕ → ℕ × ℕ → List ℕ → List ℕ → Writer
write_aux_eh addr adi ehs payload o = do
  o ← copy_to o 0 6 addr
  o ← copy_to o 6 8 (adi.0 ∷ adi.1 ∷ [])
  ehs_len ← index ehs 0
  o ← put o 8 ehs_len
  fields ← slice ehs 1 (length ehs)
  o ← copy_to o 9 (9 + length ehs - 1) fields
  let data_start = 9 + length ehs - 1
  copy_to o data_start (data_start + length payload) payload

unfoldable pub write_periodic : ℕ → ℕ × ℕ → Writer
write_periodic mode adi o = do o ← put o 0 mode; copy_to o 1 3 (adi.0 ∷ adi.1 ∷ [])

-- The `match` behind the first test on the buffer.
unfoldable pub encode_pdu : AdvPdu → List ℕ → Bool → Bool → Result Error (ℕ × List ℕ)
encode_pdu (adv_ind addr payload) out tx rx =
    encode_with out pdu_adv_ind tx false (6 + length payload) (write_addr_data addr payload)
encode_pdu (adv_scan_ind addr payload) out tx rx =
    encode_with out pdu_adv_scan_ind tx false (6 + length payload) (write_addr_data addr payload)
encode_pdu (adv_nonconn_ind addr payload) out tx rx =
    encode_with out pdu_adv_nonconn_ind false false (6 + length payload)
      (write_addr_data addr payload)
encode_pdu (scan_rsp addr payload) out tx rx =
    encode_with out pdu_scan_rsp tx false (6 + length payload) (write_addr_data addr payload)
encode_pdu (adv_direct_ind a b) out tx rx =
    encode_with out pdu_adv_direct_ind tx false 12 (write_two_addrs a b)
encode_pdu (scan_req a b) out tx rx = encode_with out pdu_scan_req tx rx 12 (write_two_addrs a b)
encode_pdu (connect_req a b ll_data) out tx rx =
    encode_with out pdu_connect_req tx rx 34 (write_connect a b ll_data)
encode_pdu (adv_ext_ind addr mode adi aux_ptr) out tx rx =
    encode_with out pdu_adv_ext_ind tx false 12 (write_ext addr mode adi aux_ptr)
encode_pdu (aux_adv_ext_ind addr adi ext_type payload) out tx rx =
    encode_with out pdu_adv_ext_ind tx false (10 + length payload)
      (write_aux addr adi ext_type payload)
encode_pdu (aux_adv_ext_ind_with_eh addr adi ehs payload) out tx rx =
    encode_with out pdu_adv_ext_ind tx false (8 + length ehs + length payload)
      (write_aux_eh addr adi ehs payload)
encode_pdu (periodic_adv mode adi) out tx rx =
    encode_with out pdu_adv_ext_ind tx false 3 (write_periodic mode adi)

unfoldable pub encode_typed : AdvPdu → List ℕ → Bool → Bool → Result Error (ℕ × List ℕ)
encode_typed pdu out tx_add rx_add =
    if ltb (length out) 2 then err buffer_too_small else encode_pdu pdu out tx_add rx_add

unfoldable pub encode : AdvPdu → List ℕ → Result Error (ℕ × List ℕ)
encode pdu out = encode_typed pdu out false false

unfoldable pub pdu_type : AdvPdu → ℕ
pdu_type (adv_ind _ _) = pdu_adv_ind
pdu_type (adv_direct_ind _ _) = pdu_adv_direct_ind
pdu_type (adv_nonconn_ind _ _) = pdu_adv_nonconn_ind
pdu_type (scan_req _ _) = pdu_scan_req
pdu_type (scan_rsp _ _) = pdu_scan_rsp
pdu_type (connect_req _ _ _) = pdu_connect_req
pdu_type (adv_scan_ind _ _) = pdu_adv_scan_ind
pdu_type (adv_ext_ind _ _ _ _) = pdu_adv_ext_ind
pdu_type (aux_adv_ext_ind _ _ _ _) = pdu_adv_ext_ind
pdu_type (aux_adv_ext_ind_with_eh _ _ _ _) = pdu_adv_ext_ind
pdu_type (periodic_adv _ _) = pdu_adv_ext_ind
