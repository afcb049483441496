-- ===== src/Hw/Conn/Coc/Sdu.antt =====
-- The data of a channel: `l2cap_send` and `rx_coc_sdu` of src/hw/conn.rs.
use nrf_ble.Base.{
  ℕ, ◌+◌, ◌-◌, min, ltb, leb, ◌==◌, if◌then◌else◌, List, [], ◌∷◌, ◌++◌, length, replicate, Bool,
  true, false, ◌||◌, Option, none, some,
}
use nrf_ble.Base.Results.{
  Result, ok, err, panic, Error, not_running, invalid_length, ◌>>=◌, slice, copy_to,
}
use nrf_ble.Ll.Pdu.Fields.{le16}
use nrf_ble.Hw.Conn.Tx.{Tx, queue_signaling}
use nrf_ble.Hw.Conn.Coc.{Coc, Endpoint, u16_at, le_flow_control_credit}

-- `l2cap_send` on an open channel.
abbrev pub send_on : Coc → List ℕ → Endpoint → Result ⊥ (Result Error (Unit {0}) × Endpoint)
send_on coc payload e =
    let t = e.tx in
    let total = length payload + 2 in
    if ltb coc.mtu (length payload) || ltb (length t.tx_att) total
    then ok (err invalid_length, e)
    else if coc.credits == 0
    then ok (err not_running, e)
    else (do
      tx_att ← copy_to t.tx_att 0 2 (le16 (length payload))
      tx_att ← copy_to tx_att 2 total payload
      let tx : Tx = record t {
        tx_att = tx_att;
        tx_att_len = total;
        tx_cid = coc.local_cid;
        tx_frag_offset = 0;
        tx_pending = true;
      }
      ok (ok tt, record e { coc = some (record coc { credits = coc.credits - 1 }); tx = tx }))

abbrev pub send_if : Option Coc → List ℕ → Endpoint → Result ⊥ (Result Error (Unit {0}) × Endpoint)
send_if none payload e = ok (err not_running, e)
send_if (some coc) payload e = send_on coc payload e

unfoldable pub l2cap_send : List ℕ → Endpoint → Result ⊥ (Result Error (Unit {0}) × Endpoint)
l2cap_send payload e = send_if e.coc payload e

-- What a frame adds to the SDU: behind its length if it is the first one, at the end otherwise.
-- `none` is the early return on a frame without a length.
unfoldable pub take_in : List ℕ → Coc → Result ⊥ (Option Coc)
take_in body coc =
    let room = length coc.rx_sdu - coc.rx_sdu_len in
    if coc.rx_sdu_len == 0
    then (if ltb (length body) 2 then ok none else (do
      total ← u16_at body 0
      chunk ← slice body 2 (length body)
      let n = min (length chunk) (length coc.rx_sdu)
      part ← slice chunk 0 n
      rx_sdu ← copy_to coc.rx_sdu 0 n part
      ok (some (record coc { rx_sdu = rx_sdu; rx_sdu_len = n; rx_sdu_total = total }))))
    else if ltb (length coc.rx_sdu) coc.rx_sdu_len
    then panic
    else (do
      let n = min (length body) room
      let len = coc.rx_sdu_len + n
      part ← slice body 0 n
      rx_sdu ← copy_to coc.rx_sdu coc.rx_sdu_len len part
      ok (some (record coc { rx_sdu = rx_sdu; rx_sdu_len = len })))

-- A complete SDU: the credit for it is queued, and it is handed to the application.
unfoldable pub complete_sdu : Coc → Endpoint → Result ⊥ (Bool × Endpoint)
complete_sdu coc e = do
  let total = min coc.rx_sdu_total 256
  part ← slice coc.rx_sdu 0 total
  sdu ← copy_to (replicate 256 0) 0 total part
  tx ← queue_signaling (le_flow_control_credit ∷ 0 ∷ [] ++ le16 coc.peer_cid ++ le16 1) e.tx
  let n = min total (length e.rx_data)
  part ← slice sdu 0 n
  rx_data ← copy_to e.rx_data 0 n part
  ok (
    true,
    record e {
      coc = some (record coc { rx_sdu_len = 0; rx_sdu_total = 0 });
      tx = tx;
      rx_data = rx_data;
      rx_data_len = n;
    },
  )

abbrev pub complete_or_wait : Option Coc → Endpoint → Result ⊥ (Bool × Endpoint)
complete_or_wait none e = ok (false, e)
complete_or_wait (some coc) e =
    if leb coc.rx_sdu_total coc.rx_sdu_len
    then complete_sdu coc e
    else ok (false, record e { coc = some coc })

abbrev pub frame_of : Option Coc → List ℕ → Endpoint → Result ⊥ (Bool × Endpoint)
frame_of none body e = ok (false, e)
frame_of (some coc) body e = do coc ← take_in body coc; complete_or_wait coc e

-- The state afterwards, and whether the event is `ConnEvent::Data`.
unfoldable pub rx_coc_sdu : List ℕ → Endpoint → Result ⊥ (Bool × Endpoint)
rx_coc_sdu body e = frame_of e.coc body e
