-- ===== src/Hw/Conn/Coc/Credit.antt =====
-- A payload, from one side of a channel to the other, and the credit for it back.
use nrf_ble.Base.{ℕ, ◌≤◌, ◌≡◌, List, length, take}
use nrf_ble.Hw.Conn.Coc.{Coc, Endpoint}
use nrf_ble.Hw.Conn.Tx.{Tx}
use nrf_ble.Hw.Conn.Rx.{Rx}

-- The message that an endpoint has pending.
abbrev pub message : Endpoint → List ℕ
message e = take e.tx.tx_att_len e.tx.tx_att

-- The arrays that the code writes have their sizes.
pub record HasBuffers (e : Endpoint) : Type 0 where
  pub att_size : length e.tx.tx_att ≡ 251
  pub rx_data_size : length e.rx_data ≡ 244

-- A data PDU of the largest size fits its buffer.
pub record HasPdus (e : Endpoint) : Type 0 where
  pub buf_size : length e.tx.tx_buf ≡ 64
  pub pdu_high : e.tx.tx_pdu_max ≤ 62
