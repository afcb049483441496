-- ===== src/Hw/Conn/Rx.antt =====
-- What a connection receives: the assembly of an L2CAP message from data PDUs, and the channel it
-- goes to.
use nrf_ble.Base.{ℕ, ◌+◌, ◌-◌, min, ltb, leb, ◌==◌, if◌then◌else◌}
use nrf_ble.Base.{List, length, Bool, not, ◌||◌}
use nrf_ble.Base.{replicate}
use nrf_ble.Base.Results.{Result, ok, panic, ◌>>=◌, index, slice, copy_to}
use nrf_ble.Ll.Pdu.Fields.{from_le16}
use nrf_ble.Ll.Pdu.Channel.{llid_data_continuation_or_complete}
use nrf_ble.Hw.Conn.{l2cap_att_cid, l2cap_signaling_cid, l2cap_smp_cid_local}

-- `rx_l2cap` has 256 elements.
pub record Rx : Type 0 where
  pub rx_l2cap : List ℕ
  pub rx_l2cap_len : ℕ
  pub rx_l2cap_msg_len : ℕ
  pub rx_l2cap_cid : ℕ

-- As `Conn::new` sets them.
abbrev pub new_rx : Rx
new_rx = record {
  rx_l2cap = replicate 256 0;
  rx_l2cap_len = 0;
  rx_l2cap_msg_len = 0;
  rx_l2cap_cid = l2cap_att_cid;
}

-- Which handler a data PDU is for: none (too short, or the message is not complete), or one of the
-- handlers, or the application, which learns the channel.
pub data Inbound : Type 0 where
  nothing : Inbound
  to_smp to_signaling to_coc to_att : List ℕ → Inbound
  to_other : ℕ → Inbound

-- The part of `handle_l2cap` that appends a body to the message.
unfoldable pub assemble : List ℕ → Rx → Result ⊥ (Inbound × Rx)
assemble body r =
    let cap = length r.rx_l2cap in
    let n = min (length body) (cap - r.rx_l2cap_len) in
    let len = r.rx_l2cap_len + n in
    let msg_len = min r.rx_l2cap_msg_len cap in
    if ltb cap r.rx_l2cap_len then panic else (do
      part ← slice body 0 n
      rx_l2cap ← copy_to r.rx_l2cap r.rx_l2cap_len len part
      if leb msg_len len
          then (do
            att ← slice rx_l2cap 0 msg_len
            ok (to_att att, record r { rx_l2cap = rx_l2cap; rx_l2cap_len = 0 }))
          else ok (nothing, record r { rx_l2cap = rx_l2cap; rx_l2cap_len = len }))

-- `handle_l2cap` up to the handlers; `is_coc` tells the channel ids of the open channel.
unfoldable pub demux : (ℕ → Bool) → List ℕ → ℕ → Rx → Result ⊥ (Inbound × Rx)
demux is_coc payload llid r =
    let is_first = not (llid == llid_data_continuation_or_complete) || r.rx_l2cap_len == 0 in
    if is_first
    then (if ltb (length payload) 4 then ok (nothing, r) else (do
      l0 ← index payload 0
      l1 ← index payload 1
      c0 ← index payload 2
      c1 ← index payload 3
      body ← slice payload 4 (length payload)
      let cid = from_le16 c0 c1
      let r : Rx = record r {
        rx_l2cap_len = 0;
        rx_l2cap_msg_len = from_le16 l0 l1;
        rx_l2cap_cid = cid;
      }
      if cid == l2cap_smp_cid_local
          then ok (to_smp body, r)
          else if cid == l2cap_signaling_cid
          then ok (to_signaling body, r)
          else if cid == l2cap_att_cid
          then assemble body r
          else if is_coc cid
          then ok (to_coc body, r)
          else ok (to_other cid, r)))
    else assemble payload r
