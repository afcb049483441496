-- ===== src/Hw/Conn/Control/Opcode.antt =====
-- The opcodes of control PDUs: the constants `LL_CONTROL_` of src/hw/conn.rs.
use nrf_ble.Base.{ℕ}

abbrev pub connection_update_req : ℕ
connection_update_req = 0x00

abbrev pub terminate_ind : ℕ
terminate_ind = 0x02

abbrev pub encrypt_req : ℕ
encrypt_req = 0x03

abbrev pub encrypt_rsp : ℕ
encrypt_rsp = 0x04

abbrev pub start_enc_req : ℕ
start_enc_req = 0x05

abbrev pub start_enc_rsp : ℕ
start_enc_rsp = 0x06

abbrev pub unknown_rsp : ℕ
unknown_rsp = 0x07

abbrev pub feature_req : ℕ
feature_req = 0x08

abbrev pub feature_rsp : ℕ
feature_rsp = 0x09

abbrev pub version_ind : ℕ
version_ind = 0x0C

abbrev pub ping_req : ℕ
ping_req = 0x12

abbrev pub ping_rsp : ℕ
ping_rsp = 0x13

abbrev pub length_req : ℕ
length_req = 0x14

abbrev pub length_rsp : ℕ
length_rsp = 0x15

abbrev pub phy_req : ℕ
phy_req = 0x16

abbrev pub phy_rsp : ℕ
phy_rsp = 0x17
