-- ===== src/Hw/Conn/Tx.antt =====
-- What a connection sends: the pending L2CAP message and its fragments.
use nrf_ble.Base.{
  ℕ, ◌+◌, ◌-◌, ◌*◌, ◌%◌, ◌^◌, min, bit_and, bit_or, bit, ltb, leb, ◌==◌, if◌then◌else◌,
}
use nrf_ble.Base.{List, length, Bool, true, false, not, ◌&&◌}
use nrf_ble.Base.{replicate}
use nrf_ble.Base.Results.{Result, ok, panic, ◌>>=◌, slice, copy_to, put}
use nrf_ble.Ll.Pdu.Fields.{le16}
use nrf_ble.Ll.Pdu.Channel.{llid_data_start, llid_data_continuation_or_complete, llid_data_complete}
use nrf_ble.Hw.Conn.{
  l2cap_att_cid, l2cap_signaling_cid, l2cap_payload_max, att_payload_max, ll_pdu_payload_default,
}

-- `tx_att` has `l2cap_payload_max` elements, `tx_buf` has 64.
pub record Tx : Type 0 where
  pub tx_att : List ℕ
  pub tx_att_len : ℕ
  pub tx_frag_offset : ℕ
  pub tx_pending : Bool
  pub tx_cid : ℕ
  pub tx_pdu_max : ℕ
  pub tx_buf : List ℕ
  pub sn : Bool
  pub nesn : Bool

-- As `Conn::new` sets them.
abbrev pub new_tx : Tx
new_tx = record {
  tx_att = replicate l2cap_payload_max 0;
  tx_att_len = 0;
  tx_frag_offset = 0;
  tx_pending = false;
  tx_cid = l2cap_att_cid;
  tx_pdu_max = ll_pdu_payload_default;
  tx_buf = replicate 64 0;
  sn = false;
  nesn = false;
}

-- `(llid & 0b11) | ((nesn as u8) << 2) | ((sn as u8) << 3)`
abbrev pub header_byte : ℕ → Bool → Bool → ℕ
header_byte llid nesn sn = bit_or (bit_or (bit_and llid 3) (bit nesn * 2 ^ 2)) (bit sn * 2 ^ 3)

-- The message becomes the pending one; the channel and the offset stay.
unfoldable pub queue_att : List ℕ → Tx → Result ⊥ Tx
queue_att att t = do
  let len = min (length att) (length t.tx_att)
  part ← slice att 0 len
  tx_att ← copy_to t.tx_att 0 len part
  ok (record t { tx_att = tx_att; tx_att_len = len; tx_pending = true })

unfoldable pub queue_l2cap : List ℕ → ℕ → Tx → Result ⊥ Tx
queue_l2cap l2 cid t = do
  let n = min (length l2) (length t.tx_att)
  part ← slice l2 0 n
  tx_att ← copy_to t.tx_att 0 n part
  ok (record t {
    tx_att = tx_att;
    tx_att_len = n;
    tx_cid = cid;
    tx_frag_offset = 0;
    tx_pending = true;
  })

unfoldable pub queue_signaling : List ℕ → Tx → Result ⊥ Tx
queue_signaling msg t = do
  let n = min (length msg) (length t.tx_att - 4)
  part ← slice msg 0 n
  tx_att ← copy_to t.tx_att 0 n part
  ok (record t {
    tx_att = tx_att;
    tx_att_len = n;
    tx_cid = l2cap_signaling_cid;
    tx_frag_offset = 0;
    tx_pending = true;
  })

unfoldable pub queue_notify : List ℕ → Tx → Result ⊥ Tx
queue_notify payload t = do
  let len = min (length payload) att_payload_max
  tx_att ← put t.tx_att 0 0x1B
  tx_att ← copy_to tx_att 1 3 (le16 5)
  part ← slice payload 0 len
  tx_att ← copy_to tx_att 3 (3 + len) part
  ok (record t { tx_att = tx_att; tx_att_len = 3 + len; tx_pending = true })

-- The bytes behind the data header: on the first fragment the L2CAP header comes before the chunk.
unfoldable pub write_fragment : Bool → ℕ → ℕ → List ℕ → List ℕ → Result ⊥ (List ℕ)
write_fragment true att_len cid chunk buf = do
  buf ← copy_to buf 2 4 (le16 att_len)
  buf ← copy_to buf 4 6 (le16 cid)
  copy_to buf 6 (6 + length chunk) chunk
write_fragment false att_len cid chunk buf = copy_to buf 2 (2 + length chunk) chunk

-- How many bytes of the message the next fragment takes.
unfoldable pub chunk_len : Tx → ℕ
chunk_len t =
    min (t.tx_att_len - t.tx_frag_offset)
      (if t.tx_frag_offset == 0 then t.tx_pdu_max - 4 else t.tx_pdu_max)

-- The length of the packet, and the state afterwards.
unfoldable pub tx_fragment : Tx → Result ⊥ (ℕ × Tx)
tx_fragment t =
    let att_len = t.tx_att_len in
    let first = t.tx_frag_offset == 0 in
    let chunk = chunk_len t in
    let complete = first && chunk == att_len in
    let llid =
      if complete
      then llid_data_complete
      else if first
      then llid_data_start
      else llid_data_continuation_or_complete in
    let payload_len = if first then 4 + chunk else chunk in
    let offset = t.tx_frag_offset + chunk in
    if ltb att_len t.tx_frag_offset then panic else (do
      buf ← put t.tx_buf 0 (header_byte llid (not t.nesn) t.sn)
      buf ← put buf 1 (payload_len % 256)
      part ← slice t.tx_att t.tx_frag_offset offset
      buf ← write_fragment first att_len t.tx_cid part buf
      ok (
        2 + payload_len,
        record t {
          tx_buf = buf;
          tx_frag_offset = if leb att_len offset then 0 else offset;
          tx_pending = if leb att_len offset then false else t.tx_pending;
        },
      ))
