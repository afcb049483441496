-- ===== src/Hw/Conn.antt =====
-- Connections: src/hw/conn.rs. The fields of the struct `Conn` stand in several records, by the part
-- of the code that uses them. An overflowing subtraction is a panic.
pub mod Tx
pub mod Rx
pub mod Link
pub mod Coc
pub mod Control
pub mod Gatt
pub mod Att
pub mod Security
pub mod State
pub mod Event
use nrf_ble.Base.{ℕ}

abbrev pub l2cap_att_cid : ℕ
l2cap_att_cid = 4

abbrev pub l2cap_signaling_cid : ℕ
l2cap_signaling_cid = 5

abbrev pub l2cap_smp_cid_local : ℕ
l2cap_smp_cid_local = 6

abbrev pub att_mtu_default : ℕ
att_mtu_default = 23

abbrev pub att_payload_max : ℕ
att_payload_max = 244

abbrev pub l2cap_payload_max : ℕ
l2cap_payload_max = 251

abbrev pub ll_pdu_payload_default : ℕ
ll_pdu_payload_default = 27

abbrev pub ll_pdu_payload_max : ℕ
ll_pdu_payload_max = 251
