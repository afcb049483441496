-- ===== src/Hw/Conn/Control.antt =====
-- Control PDUs and what a connection transmits: `handle_ll_control`, `tx` and `respond` of
-- src/hw/conn.rs.
pub mod Opcode
pub mod Kept
pub mod Limits
pub mod Answer
use nrf_ble.Base.{
  ℕ, ◌+◌, ◌-◌, min, ltb, leb, ◌==◌, ◌||◌, if◌then◌else◌, List, [], ◌∷◌, ◌++◌, length, replicate,
  Bool, true, false, not, Option, none, some,
}
use nrf_ble.Base.Results.{Result, ok, err, panic, ◌>>=◌, index, slice, copy_to, put}
use nrf_ble.Ll.Pdu.Fields.{le16, from_le16}
use nrf_ble.Ll.Pdu.Channel.{llid_control, llid_data_complete}
use nrf_ble.Hw.Ccm
use nrf_ble.Hw.Ccm.{Ccm, ll_mic_len, ll_nonce_master_to_slave, ll_nonce_slave_to_master}
use nrf_ble.Hw.Conn.{ll_pdu_payload_max}
use nrf_ble.Hw.Conn.Coc.{u16_at}
use nrf_ble.Hw.Conn.Control.Opcode
use nrf_ble.Hw.Conn.Tx.{Tx, header_byte, tx_fragment}

pub data DisconnectReason : Type 0 where
  remote_terminate host_terminate supervision_timeout local_error : DisconnectReason

-- The fields of `Conn` that these methods use, and the packets handed to the radio, the last one
-- first. `master` is the role.
pub record Control : Type 0 where
  pub tx : Tx
  pub master : Bool
  pub stk : List ℕ
  pub pending_control : Option (List ℕ)
  pub peer_version_ok : Bool
  pub want_encrypt : Bool
  pub encrypted : Bool
  pub packet_counter : ℕ
  pub ccm : Ccm
  pub rx_pdu_max : ℕ
  pub pending_update : Option (ℕ × ℕ)
  pub pending_update_instant : ℕ
  pub air : List (List ℕ)

-- `radio.transmit(&self.tx_buf[..len])`
abbrev pub transmit : ℕ → Control → Result ⊥ Control
transmit len c = do packet ← slice c.tx.tx_buf 0 len; ok (record c { air = packet ∷ c.air })

-- `self.pending_control = Some(ctrl)`, of an array of 19 bytes that starts with some and is zero
-- behind them.
abbrev pub answer : List ℕ → Control → Control
answer start c = record c { pending_control = some (start ++ replicate (19 - length start) 0) }

-- The buffer starts with a header, which states a length, and with bytes.
abbrev pub write_pdu : ℕ → ℕ → List ℕ → Control → Result ⊥ Control
write_pdu llid len bytes c = do
  let t = c.tx
  buf ← put t.tx_buf 0 (header_byte llid (not t.nesn) t.sn)
  buf ← put buf 1 len
  buf ← copy_to buf 2 (2 + length bytes) bytes
  ok (record c { tx = record t { tx_buf = buf } })

-- The lengths that a peer's length PDU allows.
abbrev pub set_lengths : List ℕ → Control → Result ⊥ Control
set_lengths payload c = do
  max_tx ← u16_at payload 1
  max_rx ← u16_at payload 5
  ok (record c {
    tx = record (c.tx) { tx_pdu_max = min max_tx ll_pdu_payload_max };
    rx_pdu_max = min max_rx ll_pdu_payload_max;
  })

abbrev pub start_encryption : Control → Control
start_encryption c = record c { encrypted = true; packet_counter = 0 }

abbrev pub length_response : List ℕ
length_response =
    Opcode.length_rsp ∷ []
    ++ le16 ll_pdu_payload_max
    ++ le16 2120
    ++ le16 ll_pdu_payload_max
    ++ le16 2120

abbrev pub connection_update : List ℕ → Control → Result ⊥ Control
connection_update payload c =
    if leb 10 (length payload)
    then (do
      interval ← u16_at payload 3
      timeout ← u16_at payload 7
      instant ← u16_at payload 9
      ok (record c { pending_update = some (interval, timeout); pending_update_instant = instant }))
    else ok c

module _ (block : List ℕ → Bool → List ℕ → Bool × List ℕ) where
  unfoldable pub tx : ℕ → Control → Result ⊥ Control
  tx len c =
      if c.encrypted
      then (do
        let direction = if c.master then ll_nonce_master_to_slave else ll_nonce_slave_to_master
        ccm ← Ccm.setup c.stk c.packet_counter direction c.ccm
        (succeeds, buf, ccm) ← Ccm.process block false c.tx.tx_buf ccm
        let c : Control = record c { ccm = ccm; tx = record (c.tx) { tx_buf = buf } }
        if succeeds then transmit (len + ll_mic_len) c else ok c)
      else transmit len c

  unfoldable pub handle_ll_control :
      List ℕ → Control → Result ⊥ (Result DisconnectReason (Unit {0}) × Control)
  handle_ll_control [] c = ok (ok tt, c)
  handle_ll_control (op ∷ rest) c =
      let payload = op ∷ rest in
      let done : Control → Result ⊥ (Result DisconnectReason (Unit {0}) × Control) =
        λ c. ok (ok tt, c) in
      if op == Opcode.terminate_ind
      then ok (err remote_terminate, c)
      else if op == Opcode.version_ind
      then (do
        c ← write_pdu llid_control 4 (Opcode.version_ind ∷ 0x0C ∷ 0xFF ∷ 0xFF ∷ 0x00 ∷ 0x00 ∷ []) c
        c ← transmit 8 c
        done (record c { peer_version_ok = true }))
      else if op == Opcode.feature_req || op == Opcode.feature_rsp
      then (do
        c ← write_pdu llid_control 9 (Opcode.feature_rsp ∷ replicate 8 0) c
        c ← transmit 11 c
        done c)
      else if op == Opcode.encrypt_req
      then done (record (answer (Opcode.encrypt_rsp ∷ []) c) { want_encrypt = true })
      else if op == Opcode.encrypt_rsp
      then done (answer (Opcode.start_enc_req ∷ []) c)
      else if op == Opcode.start_enc_req
      then (do
        c ← write_pdu llid_control 1 (Opcode.start_enc_rsp ∷ 0 ∷ []) c
        c ← tx 3 c
        done (start_encryption c))
      else if op == Opcode.start_enc_rsp
      then done (start_encryption c)
      else if op == Opcode.length_req
      then (do c ← set_lengths payload (answer length_response c); done c)
      else if op == Opcode.length_rsp
      then (do c ← set_lengths payload c; done c)
      else if op == Opcode.ping_req
      then done (answer (Opcode.ping_rsp ∷ []) c)
      else if op == Opcode.phy_req
      then done (answer (Opcode.phy_rsp ∷ 0 ∷ 0x01 ∷ 0x01 ∷ 0x01 ∷ []) c)
      else if op == Opcode.connection_update_req
      then (do c ← connection_update payload c; done c)
      else done (answer (Opcode.unknown_rsp ∷ op ∷ []) c)

  -- A control PDU that waits goes first, then a fragment of the pending message, then an empty PDU.
  unfoldable pub respond : Control → Result ⊥ Control
  respond c = send_or_fragment c.pending_control c
    where
      send_or_fragment : Option (List ℕ) → Control → Result ⊥ Control
      send_or_fragment (some ctrl) c = do
        part ← slice ctrl 0 18
        c ← write_pdu llid_control 18 part (record c { pending_control = none })
        tx 20 c
      send_or_fragment none c =
          if c.tx.tx_pending
          then (do
            (total, t) ← tx_fragment c.tx
            tx total (record c { tx = record t { sn = not t.sn } }))
          else (do c ← write_pdu llid_data_complete 0 [] c; tx 2 c)
