-- ===== src/Tests/Links.antt =====
-- Connections at concrete states: messages, channels, control PDUs and encryption.
use nrf_ble.Base.{
  ℕ, ◌≤◌, ◌<◌, ◌≡◌, ◌⊎◌, refl, arith, List, [], ◌∷◌, ◌++◌, length, replicate, Bool, false, Option,
  none, some,
}
use nrf_ble.Base.Results.{ok, err, invalid_length, not_running}
use nrf_ble.Hw.Conn.Tx.{Tx, new_tx, queue_att}
use nrf_ble.Hw.Conn.Rx.{Rx, new_rx, nothing, to_att}
use nrf_ble.Hw.Conn.Link.{transfer}
use nrf_ble.Hw.Conn.Link.Message.{IsReady, IsIdle, queue_att-transfer}
use nrf_ble.Hw.Conn.Coc
use nrf_ble.Hw.Conn.Coc.{Coc, Endpoint}
use nrf_ble.Hw.Conn.Coc.Sdu.{l2cap_send}
use nrf_ble.Hw.Conn.Coc.Send.{sent, l2cap_send-outcome}

-- Two fragments.
abbrev forty : List ℕ
forty = replicate 40 7

no_channel : ℕ → Bool
no_channel cid = false

new_tx-IsReady : IsReady new_tx
new_tx-IsReady = record {
  att_size = refl;
  buf_size = refl;
  at_start = refl;
  on_att = refl;
  pdu_low = omega arith;
  pdu_high = omega arith;
}

new_rx-IsIdle : IsIdle new_rx
new_rx-IsIdle = record { rx_size = refl; none_taken = refl }

queue_att-transfer_example :
    (queued : Tx) × (t' : Tx) × (r' : Rx) × (quiet : ℕ) × (queue_att forty new_tx ≡ ok queued)
    × (transfer no_channel 40 queued new_rx
        ≡ ok (t', replicate quiet nothing ++ to_att forty ∷ [], r'))
    × (t'.tx_pending ≡ false)
    × IsReady t'
    × IsIdle r'
queue_att-transfer_example =
    queue_att-transfer no_channel new_tx new_rx forty new_tx-IsReady new_rx-IsIdle (omega arith)
      (omega arith)

abbrev channel : Coc
channel = record (Coc.new 0x80) { peer_cid = 0x40; credits = 8 }

abbrev endpoint : Option Coc → Endpoint
endpoint coc = record { coc = coc; tx = new_tx; rx_data = replicate 244 0; rx_data_len = 0 }

-- As much as one PDU of the default limit holds, and a byte less.
abbrev twenty : List ℕ
twenty = replicate 20 7

abbrev open_end : Endpoint
open_end = endpoint (some channel)

abbrev poor : Endpoint
poor = endpoint (some (record channel { credits = 0 }))

l2cap_send-outcome_example :
    ((poor.coc ≡ none) × (l2cap_send forty poor ≡ ok (err not_running, poor)))
    ⊎ ((coc : Coc) × (poor.coc ≡ some coc)
        × (((coc.mtu < length forty) × (l2cap_send forty poor ≡ ok (err invalid_length, poor)))
            ⊎ (((249 < length forty) × (l2cap_send forty poor ≡ ok (err invalid_length, poor)))
                ⊎ (((length forty ≤ coc.mtu)
                      × (length forty ≤ 249)
                      × (coc.credits ≡ 0)
                      × (l2cap_send forty poor ≡ ok (err not_running, poor)))
                    ⊎ ((length forty ≤ coc.mtu)
                        × (length forty ≤ 249)
                        × (0 < coc.credits)
                        × (l2cap_send forty poor ≡ ok (ok tt, sent coc forty poor)))))))
l2cap_send-outcome_example = l2cap_send-outcome forty poor refl
