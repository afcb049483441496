-- ===== src/Ll/Pdu/Adv.antt =====
-- Advertising channel PDUs, `AdvPdu` of src/ll/pdu.rs.
pub mod Encode
pub mod Layout
pub mod Writers
pub mod Framing
pub mod Laws
pub mod RoundTrip
use nrf_ble.Base.{
  ℕ, ◌+◌, List, [], ◌∷◌, Bool, not, length, take, drop, ltb, leb, ◌==◌, if◌then◌else◌,
}
use nrf_ble.Base.Results.{Result, ok, err, Error, invalid_pdu, invalid_length, ◌>>=◌, ◌>>◌, guard}
use nrf_ble.Base.Results.{index, slice}
use nrf_ble.Ll.Pdu.Header
use nrf_ble.Ll.Pdu.Header.{AdvHdr, pdu_adv_ind, pdu_adv_direct_ind, pdu_adv_nonconn_ind}
use nrf_ble.Ll.Pdu.Header.{pdu_scan_req, pdu_scan_rsp, pdu_connect_req, pdu_adv_scan_ind}
use nrf_ble.Ll.Pdu.Header.{pdu_adv_ext_ind}
use nrf_ble.Ll.Pdu.Fields.{AuxPtr, decode_aux}

pub data AdvPdu : Type 0 where
  adv_ind : (adv_addr payload : List ℕ) → AdvPdu
  adv_direct_ind : (adv_addr init_addr : List ℕ) → AdvPdu
  adv_nonconn_ind : (adv_addr payload : List ℕ) → AdvPdu
  scan_req : (scan_addr adv_addr : List ℕ) → AdvPdu
  scan_rsp : (adv_addr payload : List ℕ) → AdvPdu
  connect_req : (init_addr adv_addr ll_data : List ℕ) → AdvPdu
  adv_scan_ind : (adv_addr payload : List ℕ) → AdvPdu
  adv_ext_ind : (adv_addr : List ℕ) (adv_mode : ℕ) (adi : ℕ × ℕ) (aux_ptr : AuxPtr) → AdvPdu
  aux_adv_ext_ind : (adv_addr : List ℕ) (adi : ℕ × ℕ) (ext_type : ℕ) (payload : List ℕ) → AdvPdu
  aux_adv_ext_ind_with_eh : (adv_addr : List ℕ) (adi : ℕ × ℕ) (ehs payload : List ℕ) → AdvPdu
  periodic_adv : (adv_mode : ℕ) (adi : ℕ × ℕ) → AdvPdu

-- `&payload[..6]` and `&payload[6..]`, both in range behind the test.
unfoldable pub split6 : List ℕ → Result Error (List ℕ × List ℕ)
split6 payload =
    if ltb (length payload) 6 then err invalid_length else ok (take 6 payload, drop 6 payload)

-- `b.try_into().map_err(|_| Error::InvalidLength)`
abbrev pub to_array : ℕ → List ℕ → Result Error (List ℕ)
to_array n b = if length b == n then ok b else err invalid_length

-- The arm for `PDU_ADV_EXT_IND`.
unfoldable pub decode_ext : List ℕ → Result Error AdvPdu
decode_ext payload =
    if length payload == 12
    then (do
      adv_addr ← to_array 6 (take 6 payload)
      mode ← index payload 6
      a0 ← index payload 7
      a1 ← index payload 8
      x0 ← index payload 9
      x1 ← index payload 10
      x2 ← index payload 11
      ok (adv_ext_ind adv_addr mode (a0, a1) (decode_aux (x0, x1, x2))))
    else if leb 10 (length payload)
    then (do
      adv_addr ← to_array 6 (take 6 payload)
      a0 ← index payload 6
      a1 ← index payload 7
      ehs_len ← index payload 8
      let ehs_end = 9 + ehs_len
      guard (leb ehs_end (length payload)) invalid_length
      ext_type ← index payload 9
      rest ← slice payload ehs_end (length payload)
      ok (aux_adv_ext_ind adv_addr (a0, a1) ext_type rest))
    else if length payload == 3
    then (do
      mode ← index payload 0
      a0 ← index payload 1
      a1 ← index payload 2
      ok (periodic_adv mode (a0, a1)))
    else err invalid_length

-- The `match` on the PDU type.
unfoldable pub decode_payload : ℕ → List ℕ → Result Error AdvPdu
decode_payload pdu_type payload =
    if pdu_type == pdu_adv_ind
    then (do (addr, rest) ← split6 payload; ok (adv_ind addr rest))
    else if pdu_type == pdu_adv_direct_ind
    then (do (a, b) ← split6 payload; b ← to_array 6 b; ok (adv_direct_ind a b))
    else if pdu_type == pdu_adv_nonconn_ind
    then (do (addr, rest) ← split6 payload; ok (adv_nonconn_ind addr rest))
    else if pdu_type == pdu_scan_req
    then (do (a, b) ← split6 payload; b ← to_array 6 b; ok (scan_req a b))
    else if pdu_type == pdu_scan_rsp
    then (do (addr, rest) ← split6 payload; ok (scan_rsp addr rest))
    else if pdu_type == pdu_connect_req
    then (do
      (a, b) ← split6 payload
      guard (length b == 28) invalid_length
      ok (connect_req a (take 6 b) (drop 6 b)))
    else if pdu_type == pdu_adv_scan_ind
    then (do (addr, rest) ← split6 payload; ok (adv_scan_ind addr rest))
    else if pdu_type == pdu_adv_ext_ind
    then decode_ext payload
    else err invalid_pdu

unfoldable pub decode : List ℕ → Result Error AdvPdu
decode (b0 ∷ b1 ∷ payload) = do
  header ← Header.decode (b0, b1)
  guard (length payload == AdvHdr.len header) invalid_length
  decode_payload (AdvHdr.pdu_type header) payload
decode bytes = err invalid_pdu
