-- ===== src/Hw/Conn/Coc.antt =====
-- Credit based channels: `Coc`, `handle_le_signaling`, `l2cap_connect`, `l2cap_send` and `rx_coc_sdu`
-- of src/hw/conn.rs.
pub mod Sdu
pub mod Send
pub mod Credit
pub mod Handshake
use nrf_ble.Base.{
  ℕ, ◌+◌, ◌-◌, ◌%◌, min, ltb, leb, ◌==◌, if◌then◌else◌, List, [], ◌∷◌, ◌++◌, length, replicate,
  Bool, true, false, ◌||◌, Option, none, some,
}
use nrf_ble.Base.Results.{
  Result, ok, err, panic, Error, not_running, invalid_length, ◌>>=◌, index, slice, copy_to,
}
use nrf_ble.Ll.Pdu.Fields.{le16, from_le16}
use nrf_ble.Hw.Conn.Tx.{Tx, queue_signaling}

abbrev pub le_credit_based_connection_req : ℕ
le_credit_based_connection_req = 0x14

abbrev pub le_credit_based_connection_rsp : ℕ
le_credit_based_connection_rsp = 0x15

abbrev pub le_flow_control_credit : ℕ
le_flow_control_credit = 0x16

abbrev pub le_credit_based_connection_end : ℕ
le_credit_based_connection_end = 0x17

abbrev pub coc_local_cid : ℕ
coc_local_cid = 0x0040

abbrev pub coc_credits : ℕ
coc_credits = 8

abbrev pub coc_mtu : ℕ
coc_mtu = 247

abbrev pub coc_mps : ℕ
coc_mps = 251

-- `rx_sdu` and `tx_sdu` have 256 elements.
pub record Coc : Type 0 where
  pub psm : ℕ
  pub local_cid : ℕ
  pub peer_cid : ℕ
  pub credits : ℕ
  pub peer_credits : ℕ
  pub mtu : ℕ
  pub mps : ℕ
  pub rx_sdu : List ℕ
  pub rx_sdu_len : ℕ
  pub rx_sdu_total : ℕ
  pub tx_sdu : List ℕ
  pub tx_sdu_len : ℕ
  pub tx_sdu_offset : ℕ

abbrev pub new : ℕ → Coc
new psm = record {
  psm = psm;
  local_cid = coc_local_cid;
  peer_cid = 0;
  credits = 0;
  peer_credits = 0;
  mtu = coc_mtu;
  mps = coc_mps;
  rx_sdu = replicate 256 0;
  rx_sdu_len = 0;
  rx_sdu_total = 0;
  tx_sdu = replicate 256 0;
  tx_sdu_len = 0;
  tx_sdu_offset = 0;
}

-- The fields of `Conn` that a channel uses; `rx_data` has `att_payload_max` elements.
pub record Endpoint : Type 0 where
  pub coc : Option Coc
  pub tx : Tx
  pub rx_data : List ℕ
  pub rx_data_len : ℕ

-- The test of `handle_l2cap` for a channel id.
abbrev pub is_coc : Option Coc → ℕ → Bool
is_coc none cid = false
is_coc (some c) cid = c.peer_cid == cid || c.local_cid == cid

-- `u16::from_le_bytes([body[i], body[i + 1]])`
abbrev pub u16_at : List ℕ → ℕ → Result ⊥ ℕ
u16_at body i = do low ← index body i; high ← index body (i + 1); ok (from_le16 low high)

-- `u16::saturating_add`
abbrev pub saturating_add : ℕ → ℕ → ℕ
saturating_add a b = min (a + b) 65535

unfoldable pub connection_req : List ℕ → Endpoint → Result ⊥ Endpoint
connection_req body e = if ltb (length body) 12 then ok e else (do
  psm ← u16_at body 2
  peer_cid ← u16_at body 4
  mtu ← u16_at body 6
  mps ← u16_at body 8
  credits ← u16_at body 10
  let coc : Coc = record (new psm) {
    peer_cid = peer_cid;
    mtu = min mtu coc_mtu;
    mps = min mps coc_mps;
    credits = credits;
  }
  let rsp =
      le_credit_based_connection_rsp ∷ 0 ∷ []
      ++ le16 peer_cid
      ++ le16 coc_mtu
      ++ le16 coc_mps
      ++ le16 coc_credits
      ++ le16 0
  tx ← queue_signaling rsp e.tx
  ok (record e { coc = some coc; tx = tx }))

unfoldable pub connection_rsp : List ℕ → Endpoint → Coc → Result ⊥ Endpoint
connection_rsp body e coc = do
  peer_cid ← u16_at body 2
  mtu ← u16_at body 4
  mps ← u16_at body 6
  credits ← u16_at body 8
  result ← u16_at body 10
  if result == 0
      then ok (record e {
        coc = some (record coc {
          peer_cid = peer_cid;
          mtu = min coc.mtu mtu;
          mps = min coc.mps mps;
          peer_credits = credits;
        });
      })
      else ok (record e { coc = none })

unfoldable pub flow_control_credit : List ℕ → Endpoint → Coc → Result ⊥ Endpoint
flow_control_credit body e coc =
    if leb 6 (length body)
    then (do
      cid ← u16_at body 2
      credits ← u16_at body 4
      if cid == coc.local_cid || cid == coc.peer_cid
          then ok (record e {
            coc = some (record coc { credits = saturating_add coc.credits credits });
          })
          else ok e)
    else ok e

unfoldable pub connection_end : List ℕ → Endpoint → Coc → Result ⊥ Endpoint
connection_end body e coc = do
  cid ← u16_at body 2
  if cid == coc.local_cid || cid == coc.peer_cid then ok (record e { coc = none }) else ok e

-- `if let Some(coc) = &mut self.coc`
abbrev pub with_coc : Option Coc → Endpoint → (Coc → Result ⊥ Endpoint) → Result ⊥ Endpoint
with_coc none e f = ok e
with_coc (some coc) e f = f coc

unfoldable pub handle_le_signaling : List ℕ → Endpoint → Result ⊥ Endpoint
handle_le_signaling body e = if ltb (length body) 4 then ok e else (do
  code ← index body 0
  if code == le_credit_based_connection_req
      then connection_req body e
      else if code == le_credit_based_connection_rsp
      then with_coc e.coc e (connection_rsp body e)
      else if code == le_flow_control_credit
      then with_coc e.coc e (flow_control_credit body e)
      else if code == le_credit_based_connection_end
      then with_coc e.coc e (connection_end body e)
      else ok e)

-- The request of `l2cap_connect`.
abbrev pub connect_request : ℕ → List ℕ
connect_request psm =
    le_credit_based_connection_req ∷ 0 ∷ []
    ++ le16 psm
    ++ le16 coc_local_cid
    ++ le16 coc_mtu
    ++ le16 coc_mps
    ++ le16 coc_credits

unfoldable pub l2cap_connect : ℕ → Endpoint → Result ⊥ Endpoint
l2cap_connect psm e = elim e.coc [
  | some _ ↦ ok e
  | none ↦ do
    tx ← queue_signaling (connect_request psm) e.tx
    ok (record e { coc = some (new psm); tx = tx })
]
