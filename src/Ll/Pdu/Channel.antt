-- ===== src/Ll/Pdu/Channel.antt =====
-- Data channel PDUs, `DataPdu` of src/ll/pdu.rs.
pub mod Laws
use nrf_ble.Base.{ℕ, ◌+◌, ◌*◌, ◌%◌, ◌^◌, bit_and, bit_or, bit, Bool, List, [], ◌∷◌, length}
use nrf_ble.Base.{ltb, ◌==◌, if◌then◌else◌}
use nrf_ble.Base.Results.{Result, ok, err, Error, invalid_pdu, invalid_length, buffer_too_small}
use nrf_ble.Base.Results.{◌>>=◌, put, copy_to}
use nrf_ble.Ll.Pdu.Header.{has_bit}

abbrev pub llid_data_start : ℕ
llid_data_start = 1

abbrev pub llid_data_continuation_or_complete : ℕ
llid_data_continuation_or_complete = 0

abbrev pub llid_data_complete : ℕ
llid_data_complete = 3

abbrev pub llid_control : ℕ
llid_control = 2

pub record DataPdu : Type 0 where
  pub llid : ℕ
  pub nesn : Bool
  pub sn : Bool
  pub md : Bool
  pub payload : List ℕ

unfoldable pub decode : List ℕ → Result Error DataPdu
decode (b0 ∷ b1 ∷ payload) =
    let len = bit_and b1 0x3F in
    if length payload == len
    then ok (record {
      llid = bit_and b0 0x03;
      nesn = has_bit b0 0x04;
      sn = has_bit b0 0x08;
      md = has_bit b0 0x10;
      payload = payload;
    })
    else err invalid_length
decode bytes = err invalid_pdu

-- The first header byte.
abbrev pub flags : ℕ → Bool → Bool → Bool → ℕ
flags llid nesn sn md =
    bit_or (bit_or (bit_or (bit_and llid 0x03) (bit nesn * 2 ^ 2)) (bit sn * 2 ^ 3))
      (bit md * 2 ^ 4)

unfoldable pub encode : DataPdu → List ℕ → Result Error (ℕ × List ℕ)
encode p out =
    let total = 2 + length p.payload in
    if ltb 0x3F (length p.payload)
    then err invalid_length
    else if ltb (length out) total
    then err buffer_too_small
    else (do
      out ← put out 0 (flags p.llid p.nesn p.sn p.md)
      out ← put out 1 (bit_and (length p.payload % 256) 0x3F)
      out ← copy_to out 2 total p.payload
      ok (total, out))
