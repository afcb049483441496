-- ===== src/Hw/Conn/Event/Receive.antt =====
-- What an event makes of a data packet of the peer.
use nrf_ble.Base.{
  ℕ, ◌+◌, ◌/◌, ◌%◌, ◌^◌, ◌≤◌, ◌≡◌, refl, arith, List, ◌∷◌, length, Bool, true, false, some,
}
use nrf_ble.Base.Results.{ok, err, invalid_pdu}
use nrf_ble.Hw.Conn.State.{Conn}
use nrf_ble.Hw.Conn.Event.{listen, rx, turn, turns, event_slave, finish}
use nrf_ble.Hw.Io.{Io, Blocked, heard, now, set_compare, deadline_in, listen_until, listen_loop}
use nrf_ble.Hw.Radio.{Reception, ended, receive_poll}
use nrf_ble.Hw.Radio.Poll.{data_packet, filled, receive_poll-data}
use nrf_ble.Hw.Timers.{timeout_ticks}

-- The peripherals at the time of a poll: the timer is read once for the deadline, then a packet ends.
pub record Hears (io : Io) (packet : List ℕ) : Type 0 where
  pub t : ℕ
  pub later : List ℕ
  pub rssi : ℕ
  pub rest : List Reception
  pub readings : io.timer.readings ≡ t ∷ later
  pub receptions : io.radio.receptions ≡ ended true packet rssi ∷ rest

-- The peripherals behind that poll.
abbrev pub heard_io : Io → ℕ → List ℕ → ℕ → List Reception → Io
heard_io io t later rssi rest = record {
  radio = record (io.radio) { rssisample = rssi; receptions = rest };
  timer = record (io.timer) { readings = later; compare = (t + timeout_ticks 2000) % 2 ^ 32 };
}

-- The poll that hears a packet ends the listening.
pub listen-heard :
    (c : Conn) (io : Io) (packet : List ℕ) (h : Hears io packet) (len : ℕ)
    → receive_poll {E = Blocked} (ended true packet h.rssi) c.rx_buf io.radio
      ≡ ok (ok (some len), filled packet c.rx_buf, record (io.radio) { rssisample = h.rssi })
    → listen c io
      ≡ ok (
        heard len,
        record c { rx_buf = filled packet c.rx_buf },
        heard_io io h.t h.later h.rssi h.rest,
      )
unfolding listen now set_compare deadline_in listen_until listen_loop
listen-heard c io packet h len poll = simp (h.readings, h.receptions, poll) refl

module _ (encrypt : List ℕ → List ℕ → List ℕ) (block : List ℕ → Bool → List ℕ → Bool × List ℕ) where
  -- Without encryption, a slave whose next packet of the peer is a data packet with 1 to 62 bytes of
  -- payload and a correct CRC, in the receive buffer of 64 bytes: the event fails with `InvalidPdu`,
  -- whatever the packet says.
  pub event_slave-data :
      (c : Conn) (io : Io) (b0 : ℕ) (payload : List ℕ)
      → c.encrypted ≡ false
      → length c.rx_buf ≡ 64
      → 1 ≤ length payload
      → length payload ≤ 62
      → Hears io (data_packet b0 payload)
      → (c' : Conn) × (io' : Io) × (event_slave encrypt block c io ≡ ok (err invalid_pdu, c', io'))
  unfolding event_slave turns turn rx finish
  event_slave-data c io b0 payload plain size some_data few h =
      let (p, cut, whole, same, poll, part, refused) =
        receive_poll-data {E = Blocked} b0 payload c.rx_buf h.rssi io.radio some_data (omega arith)
          (omega arith) in
      let c' : Conn = record c { rx_buf = filled (data_packet b0 payload) c.rx_buf } in
      let io' : Io = heard_io io h.t h.later h.rssi h.rest in
      let listens = listen-heard c io (data_packet b0 payload) h (2 + length payload / 2) poll in
      (c', io', simp (listens, plain, part, refused) refl)
