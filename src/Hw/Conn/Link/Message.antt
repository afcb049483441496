-- ===== src/Hw/Conn/Link/Message.antt =====
-- An ATT message that is queued on one side of an idle link.
use mathlib.Core.Path.{subst}
use nrf_ble.Base.{
  ℕ, suc, ◌+◌, ◌-◌, ◌≤◌, ◌<◌, ◌≡◌, refl, ◌∙◌, arith, min, Bool, true, false, List, [], ◌∷◌, ◌++◌,
  length, length-append, length-take, length-drop, take, drop, take-append-drop, replicate,
}
use nrf_ble.Base.Results.{ok}
use nrf_ble.Base.Slices.{slice_all, copy_to_fill}
use nrf_ble.Hw.Conn.Tx.{Tx, queue_att}
use nrf_ble.Hw.Conn.Rx.{Rx, nothing, to_att}
use nrf_ble.Hw.Conn.Link.{transfer}
use nrf_ble.Hw.Conn.Link.Steps.{sending, finished, receiving}
use nrf_ble.Hw.Conn.Link.Delivery.{Comes}
use nrf_ble.Hw.Conn.Link.Arrival.{arrives}

-- The sizes of the arrays, no fragment sent of the message in them, the channel of ATT, and a
-- length of a data PDU that makes progress and fits the transmit buffer.
pub record IsReady (t : Tx) : Type 0 where
  pub att_size : length t.tx_att ≡ 251
  pub buf_size : length t.tx_buf ≡ 64
  pub at_start : t.tx_frag_offset ≡ 0
  pub on_att : t.tx_cid ≡ 4
  pub pdu_low : 5 ≤ t.tx_pdu_max
  pub pdu_high : t.tx_pdu_max ≤ 62

-- No part of a message has been taken in.
pub record IsIdle (r : Rx) : Type 0 where
  pub rx_size : length r.rx_l2cap ≡ 256
  pub none_taken : r.rx_l2cap_len ≡ 0

queued :
    (msg : List ℕ) (t : Tx)
    → IsReady t
    → length msg ≤ 251
    → queue_att msg t ≡ ok (sending t [] msg (drop (length msg) t.tx_att) t.tx_buf)
unfolding queue_att
queued msg t ready fits =
    let n = length msg in
    let size = ready.att_size in
    let m : min n (length t.tx_att) ≡ n = omega arith in
    let len : n ≡ 0 + n = omega arith in
    rw
      (
        m,
        slice_all {E = ⊥} msg,
        copy_to_fill {E = ⊥} [] t.tx_att 0 n refl msg (omega arith) (omega arith),
      )
      (λ i. ok (record t {
        tx_att = msg ++ drop n t.tx_att;
        tx_att_len = len i;
        tx_frag_offset = ready.at_start i;
        tx_pending = true;
        tx_cid = ready.on_att i;
        tx_buf = t.tx_buf;
      }))

module _ (is_coc : ℕ → Bool) where
  -- A sender is ready with its buffers of their sizes, on the channel of ATT, with no fragment sent
  -- and a payload limit from 5 to 62; a receiver is idle with no part of a message taken in. A message
  -- of 1 to 251 bytes that is queued at a ready sender is delivered to the ATT handler of
  -- an idle receiver, whole and once, by at most as many fragments as it has bytes: all packets
  -- before the last one are taken in without anything for a handler. Nothing panics, afterwards
  -- nothing is pending, and both sides are ready for the next message.
  pub queue_att-transfer :
      (t : Tx) (r : Rx) (msg : List ℕ)
      → IsReady t
      → IsIdle r
      → 0 < length msg
      → length msg ≤ 251
      → (queued : Tx) × (t' : Tx) × (r' : Rx) × (quiet : ℕ) × (queue_att msg t ≡ ok queued)
        × (transfer is_coc (length msg) queued r
            ≡ ok (t', replicate quiet nothing ++ to_att msg ∷ [], r'))
        × (t'.tx_pending ≡ false)
        × IsReady t'
        × IsIdle r'
  queue_att-transfer t r [] ready idle some fits = absurd (omega arith)
  queue_att-transfer t r (x ∷ xs) ready idle some fits =
      let msg = x ∷ xs in
      let spare = drop (length msg) t.tx_att in
      let low = ready.pdu_low in
      let high = ready.pdu_high in
      let size = ready.att_size in
      let m = min (length msg) (t.tx_pdu_max - 4) in
      let n : length (take m msg) ≡ m = length-take m msg ∙ omega arith in
      let n' = length-drop m msg in
      let s = length-drop (length msg) t.tx_att in
      let l = length-append msg spare in
      let (quiet, buf, junk, done, size', room) =
        subst
          (λ xs'.
            Comes is_coc t low high (suc (length xs)) (sending t [] xs' spare t.tx_buf) r xs' spare
              (length xs'))
          (take-append-drop m msg)
          (arrives is_coc t low high (length xs) (take m msg) (drop m msg) spare t.tx_buf r
            ready.buf_size (omega arith) (omega arith) (omega arith) (omega arith) idle.rx_size) in
      let all = length-append msg junk in
      (
        sending t [] msg spare t.tx_buf,
        finished t msg spare buf,
        record (receiving msg junk (length msg)) { rx_l2cap_len = 0 },
        quiet,
        queued msg t ready fits,
        done,
        refl,
        record {
          att_size = omega arith;
          buf_size = size';
          at_start = refl;
          on_att = refl;
          pdu_low = low;
          pdu_high = high;
        },
        record { rx_size = omega arith; none_taken = refl },
      )
