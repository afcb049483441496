-- ===== src/Hw/Conn/Event.antt =====
-- One connection event: `event`, `event_master` and `rx` of src/hw/conn.rs. A handler that transmits
-- hands its packets to the radio when it is done.
pub mod Receive
use nrf_ble.Base.{
  ℕ, zero, suc, ◌+◌, ◌%◌, ◌^◌, ◌==◌, if◌then◌else◌, List, [], ◌∷◌, Bool, true, false, not, Option,
  none, some,
}
use nrf_ble.Base.Results.{Result, ok, err, panic, Error, invalid_pdu, lift, ◌>>=◌, slice, put}
use nrf_ble.Ll.Pdu.Channel
use nrf_ble.Ll.Pdu.Channel.{DataPdu, llid_control}
use nrf_ble.Hw.Ccm
use nrf_ble.Hw.Ccm.{ll_nonce_master_to_slave, ll_nonce_slave_to_master}
use nrf_ble.Hw.Hop.{next_channel}
use nrf_ble.Hw.Io
use nrf_ble.Hw.Io.{
  Io, Blocked, now, set_compare, deadline_in, with_radio, wait_compare, listen_until, Heard, heard,
  timed_out, failed,
}
use nrf_ble.Hw.Radio
use nrf_ble.Hw.Radio.{Radio}
use nrf_ble.Hw.Timers.{next, new_125ms, timeout_ticks}
use nrf_ble.Hw.Conn.Control.Opcode
use nrf_ble.Hw.Conn.Control.{
  Control, DisconnectReason, host_terminate, remote_terminate, handle_ll_control, respond,
}
use nrf_ble.Hw.Conn.State.{
  Conn, ConnRole, master, slave, ConnEvent, idle, control, disconnected, control_of, with_control,
  handle_l2cap,
}
use nrf_ble.Hw.Conn.Tx.{header_byte}

-- What `event` returns, with the connection and the peripherals.
abbrev pub Outcome : Type 0
Outcome = Result Error ConnEvent × Conn × Io

-- The packets that a handler transmitted, the last one first.
unfoldable pub transmit_all : List (List ℕ) → Radio → Radio
transmit_all [] r = r
transmit_all (packet ∷ earlier) r = Radio.transmit packet (transmit_all earlier r)

abbrev pub after_control : Control → Conn → Io → Conn × Io
after_control k c io = (with_control k c, with_radio (transmit_all k.air) io)

-- The interval that the peer asked for holds from its instant on.
abbrev pub update_of : Option (ℕ × ℕ) → Conn → Conn
update_of none c = c
update_of (some (interval, timeout)) c =
    if c.event_counter == c.pending_update_instant
    then record c { interval = interval; timeout = timeout; accum = new_125ms }
    else c

abbrev pub count_event : Conn → Conn
count_event c = record c {
  event_counter = (c.event_counter + 1) % 2 ^ 16;
  packet_counter = if c.encrypted then (c.packet_counter + 1) % 2 ^ 64 else c.packet_counter;
}

-- The counters, the interval, the anchor and the channel of the next event.
unfoldable pub advance : Conn → Result ⊥ Conn
advance c =
    let c : Conn = count_event c in
    let c : Conn = update_of c.pending_update c in
    let (ticks, accum) = next c.accum c.interval in
    (do
      channel ← next_channel c.channel c.hop c.channel_map
      ok (record c { accum = accum; anchor = (c.anchor + ticks) % 2 ^ 32; channel = channel }))

-- The radio for the link, before its channel is set.
unfoldable pub prepare : Conn → Radio → Radio
prepare c r = Radio.set_crc_init c.crc_init (Radio.set_access_address c.access_addr r)

-- The test whether a PDU's sequence number is the expected one only guards an assignment.
abbrev pub acknowledge : Bool → Conn → Conn
acknowledge sn c = record c { tx = record (c.tx) { nesn = sn } }

-- LL_TERMINATE_IND
unfoldable pub send_terminate : Conn → Io → Result ⊥ (Conn × Io)
send_terminate c io = do
  let t = c.tx
  buf ← put t.tx_buf 0 (header_byte llid_control (not t.nesn) t.sn)
  buf ← put buf 1 2
  buf ← put buf 2 Opcode.terminate_ind
  buf ← put buf 3 0x13
  packet ← slice buf 0 4
  ok (record c { tx = record t { tx_buf = buf } }, Io.transmit packet io)

-- The direction of the packets that arrive.
abbrev pub incoming : ConnRole → ℕ
incoming master = ll_nonce_slave_to_master
incoming slave = ll_nonce_master_to_slave

-- `radio.receive_start(&mut self.rx_buf)` and the loop of polls up to `listen_until`.
unfoldable pub listen : Conn → Io → Result Blocked (Heard × Conn × Io)
listen c io = do
  (listen_until, io) ← deadline_in (timeout_ticks 2000) io
  (result, buf, io) ← Io.listen_until listen_until c.rx_buf (set_compare listen_until io)
  ok (result, record c { rx_buf = buf }, io)

module _ (encrypt : List ℕ → List ℕ → List ℕ) (block : List ℕ → Bool → List ℕ → Bool × List ℕ) where
  -- Whether the packet could be decrypted.
  unfoldable pub rx : ℕ → Conn → Result ⊥ (Bool × Conn)
  rx len c = if not c.encrypted then ok (true, c) else (do
    ccm ← Ccm.setup c.smp.stk c.packet_counter (incoming c.role) c.ccm
    (succeeds, buf, ccm) ← Ccm.process block true c.rx_buf ccm
    ok (succeeds, record c { rx_buf = buf; ccm = ccm }))

  -- How one packet of the peer ends the turn.
  pub data Turn : Type 0 where
    quiet : Turn
    taken : ConnEvent → Bool → Turn
    closed : DisconnectReason → Turn
    broken : Error → Turn

  abbrev pub controlled :
      Result DisconnectReason (Unit {0})
      → ℕ
      → DataPdu
      → Conn
      → Io
      → Result Blocked (Turn × Conn × Io)
  controlled (ok done) op pdu c io = ok (taken (control op) pdu.md, c, io)
  controlled (err reason) op pdu c io = ok (closed reason, c, io)
  controlled panic op pdu c io = panic

  -- A decoded PDU: an empty one, a control PDU, or a part of a message.
  unfoldable pub take_pdu : DataPdu → ConnEvent → Conn → Io → Result Blocked (Turn × Conn × Io)
  take_pdu pdu result c io =
      let c : Conn = acknowledge pdu.sn c in
      elim pdu.payload [
        | [] ↦ ok (taken result pdu.md, c, io)
        | op ∷ rest ↦
            if pdu.llid == llid_control
            then (do
              (answer, k) ← lift (handle_ll_control block (op ∷ rest) (control_of c))
              let (c, io) = after_control k c io
              controlled answer op pdu c io)
            else (do
              (result, c) ← lift (handle_l2cap encrypt (op ∷ rest) pdu.llid result c)
              ok (taken result pdu.md, c, io))
      ]

  abbrev pub decoded :
      Result Error DataPdu → ConnEvent → Conn → Io → Result Blocked (Turn × Conn × Io)
  decoded (ok pdu) result c io = do
    (t, io) ← now io
    take_pdu pdu result (record c { last_rx = t }) io
  decoded (err e) result c io = ok (broken invalid_pdu, c, io)
  decoded panic result c io = panic

  abbrev pub on_heard : Heard → ConnEvent → Conn → Io → Result Blocked (Turn × Conn × Io)
  on_heard (heard len) result c io = do
    (succeeds, c) ← lift (rx len c)
    if succeeds
        then (do packet ← slice c.rx_buf 0 len; decoded (Channel.decode packet) result c io)
        else ok (quiet, c, io)
  on_heard timed_out result c io = ok (quiet, c, io)
  on_heard failed result c io = ok (quiet, c, io)

  -- One turn of the outer loop of `event`.
  unfoldable pub turn : ConnEvent → Conn → Io → Result Blocked (Turn × Conn × Io)
  turn result c io = do (h, c, io) ← listen c io; on_heard h result c io

  -- The loop, with the number of turns left; another turn only if the peer has more data.
  unfoldable pub turns : ℕ → ConnEvent → Conn → Io → Result Blocked (Turn × Conn × Io)
  turns zero result c io = ok (taken result false, c, io)
  turns (suc n) result c io =
      let again : ConnEvent → Conn → Io → Result Blocked (Turn × Conn × Io) = turns n in
      (do
        (ended, c, io) ← turn result c io
        elim ended [
          | taken result md ↦ if md then again result c io else ok (taken result false, c, io)
          | quiet ↦ ok (quiet, c, io)
          | closed reason ↦ ok (closed reason, c, io)
          | broken e ↦ ok (broken e, c, io)
        ])

  abbrev pub responded : Conn → Io → Result Blocked (Conn × Io)
  responded c io = do k ← lift (respond block (control_of c)); ok (after_control k c io)

  -- The end of a slave's event.
  unfoldable pub finish : Turn → Conn → Io → Result Blocked Outcome
  finish quiet c io = ok (ok idle, c, io)
  finish (closed reason) c io = ok (ok (disconnected reason), c, io)
  finish (broken e) c io = ok (err e, c, io)
  finish (taken result md) c io =
      if c.terminate_pending
      then (do (c, io) ← lift (send_terminate c io); ok (ok (disconnected host_terminate), c, io))
      else (do (c, io) ← responded c io; ok (ok result, c, io))

  unfoldable pub event_slave : Conn → Io → Result Blocked Outcome
  event_slave c io = do (ended, c, io) ← turns 4 idle c io; finish ended c io

  -- A master's PDU: as a slave's, but a control PDU is not handled, and LL_TERMINATE_IND ends the
  -- link.
  unfoldable pub master_take : DataPdu → Conn → Io → Result Blocked Outcome
  master_take pdu c io =
      let c : Conn = acknowledge pdu.sn c in
      elim pdu.payload [
        | [] ↦ ok (ok idle, c, io)
        | op ∷ rest ↦
            if pdu.llid == llid_control
            then (if op == Opcode.terminate_ind
                then ok (ok (disconnected remote_terminate), c, io)
                else ok (ok (control op), c, io))
            else (do
              (result, c) ← lift (handle_l2cap encrypt (op ∷ rest) pdu.llid idle c)
              ok (ok result, c, io))
      ]

  abbrev pub master_decoded : Result Error DataPdu → Conn → Io → Result Blocked Outcome
  master_decoded (ok pdu) c io = master_take pdu c io
  master_decoded (err e) c io = ok (ok idle, c, io)
  master_decoded panic c io = panic

  abbrev pub master_heard : Heard → Conn → Io → Result Blocked Outcome
  master_heard (heard len) c io = do
    (succeeds, c) ← lift (rx len c)
    if succeeds
        then (do
          (t, io) ← now io
          packet ← slice c.rx_buf 0 len
          master_decoded (Channel.decode packet) (record c { last_rx = t }) io)
        else ok (ok idle, c, io)
  master_heard timed_out c io = ok (ok idle, c, io)
  master_heard failed c io = ok (ok idle, c, io)

  unfoldable pub event_master : Conn → Io → Result Blocked Outcome
  event_master c io =
      if c.terminate_pending
      then (do (c, io) ← lift (send_terminate c io); ok (ok (disconnected host_terminate), c, io))
      else (do (c, io) ← responded c io; (h, c, io) ← listen c io; master_heard h c io)

  abbrev pub by_role : ConnRole → Conn → Io → Result Blocked Outcome
  by_role slave c io = event_slave c io
  by_role master c io = do
    let io = set_compare c.anchor io
    later ← wait_compare io.timer.compare_events
    event_master c (record io { timer = record (io.timer) { compare_events = later } })

  abbrev pub tuned : Result Error Radio → Conn → Io → Result Blocked Outcome
  tuned (ok radio) c io = by_role c.role c (record io { radio = radio })
  tuned (err e) c io = ok (err e, c, io)
  tuned panic c io = panic

  unfoldable pub event : Conn → Io → Result Blocked Outcome
  event c io = do
    c ← lift (advance c)
    let io = with_radio (prepare c) io
    tuned (Radio.set_channel c.channel io.radio) c io
