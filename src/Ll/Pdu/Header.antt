-- ===== src/Ll/Pdu/Header.antt =====
-- The advertising channel header of src/ll/pdu.rs, and the bits of one byte.
pub mod Laws
use nrf_ble.Base.{ℕ, ◌*◌, ◌/◌, ◌^◌, bit_and, bit_or, bit, Bool, not, ltb, ◌==◌, if◌then◌else◌}
use nrf_ble.Base.Results.{Result, ok, err, Error, invalid_pdu}

abbrev pub pdu_adv_ind : ℕ
pdu_adv_ind = 0

abbrev pub pdu_adv_direct_ind : ℕ
pdu_adv_direct_ind = 1

abbrev pub pdu_adv_nonconn_ind : ℕ
pdu_adv_nonconn_ind = 2

abbrev pub pdu_scan_req : ℕ
pdu_scan_req = 3

abbrev pub pdu_scan_rsp : ℕ
pdu_scan_rsp = 4

abbrev pub pdu_connect_req : ℕ
pdu_connect_req = 5

abbrev pub pdu_adv_scan_ind : ℕ
pdu_adv_scan_ind = 6

abbrev pub pdu_adv_ext_ind : ℕ
pdu_adv_ext_ind = 7

pub record AdvHdr : Type 0 where
  pub pdu_type : ℕ
  pub ch_sel : Bool
  pub tx_add : Bool
  pub rx_add : Bool
  pub len : ℕ

-- `b & mask != 0`
abbrev pub has_bit : ℕ → ℕ → Bool
has_bit b mask = not (bit_and b mask == 0)

unfoldable pub encode : AdvHdr → ℕ × ℕ
encode h = (
  bit_or (bit_or (bit_and h.pdu_type 0x0F) (bit h.ch_sel * 2 ^ 6)) (bit h.tx_add * 2 ^ 7),
  bit_or (bit h.rx_add) (bit_and h.len 0x3F * 2),
)

unfoldable pub decode : ℕ × ℕ → Result Error AdvHdr
decode (b0, b1) =
    let pdu_type = bit_and b0 0x0F in
    if ltb 7 pdu_type
    then err invalid_pdu
    else ok (record {
      pdu_type = pdu_type;
      ch_sel = has_bit b0 0x40;
      tx_add = has_bit b0 0x80;
      rx_add = has_bit b1 0x01;
      len = bit_and (b1 / 2) 0x3F;
    })
