-- ===== src/Hw/Conn/Link.antt =====
-- Two devices: what the fragments of one side become at the other.
pub mod Steps
pub mod Exchange
pub mod Delivery
pub mod Arrival
pub mod Message
pub mod Single
use nrf_ble.Base.{ℕ, zero, suc, List, [], ◌∷◌, Bool, if◌then◌else◌}
use nrf_ble.Base.Results.{Result, ok, Error, ◌>>=◌, lift, slice}
use nrf_ble.Ll.Pdu.Channel
use nrf_ble.Ll.Pdu.Channel.{DataPdu}
use nrf_ble.Hw.Conn.Tx.{Tx, tx_fragment}
use nrf_ble.Hw.Conn.Rx.{Rx, Inbound, demux}

module _ (is_coc : ℕ → Bool) where
  -- The next fragment is sent, and its packet is decoded and taken in at the other side.
  unfoldable pub exchange : Tx → Rx → Result Error (Tx × Inbound × Rx)
  exchange t r = do
    (total, t) ← lift (tx_fragment t)
    sent ← slice t.tx_buf 0 total
    pdu ← Channel.decode sent
    (inbound, r) ← lift (demux is_coc (DataPdu.payload pdu) (DataPdu.llid pdu) r)
    ok (t, inbound, r)

  -- At most `n` fragments, as long as one is pending: what each of them was to the other side.
  unfoldable pub transfer : ℕ → Tx → Rx → Result Error (Tx × List Inbound × Rx)
  transfer zero t r = ok (t, [], r)
  transfer (suc n) t r =
      if t.tx_pending
      then (do
        (t, inbound, r) ← exchange t r
        (t, rest, r) ← transfer n t r
        ok (t, inbound ∷ rest, r))
      else ok (t, [], r)
