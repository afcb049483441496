-- ===== src/Hw/Ble/Link/Outcomes.antt =====
-- What `conn_tick` makes of the outcome of a connection event.
use nrf_ble.Base.{
  ℕ, ◌+◌, ◌*◌, ◌<◌, ◌≤◌, ◌≡◌, refl, ap, ◌∙◌, arith, leb-false, le→leb, ltb-cases, ltb, List, [],
  ◌∷◌, ◌++◌, append-nil, length, length-append, Bool, true, Option, none, some, if◌then◌else◌, inl,
  inr,
}
use nrf_ble.Base.Results.{Result, ok, err, panic, Error, slice, ◌>>=◌}
use nrf_ble.Hw.Conn.Control.{DisconnectReason, local_error}
use nrf_ble.Hw.Conn.State.{Conn, ConnEvent}
use nrf_ble.Hw.Conn.Event.{event}
use nrf_ble.Hw.Ble
use nrf_ble.Hw.Ble.{Ble, BleEvent, conn_data, ll_control}
use nrf_ble.Hw.Ble.Events.{Pending, push-ok}
use nrf_ble.Hw.Ble.Link.{
  conn_tick, tick_on, conn_rx_data, rx_data_of, elapsed, reported, report_data, after_event,
}
use nrf_ble.Hw.Io.{Io, Blocked, now}
use nrf_ble.Hw.Queue.{Queue}
use nrf_ble.Hw.Queue.Laws.{Holds}

-- Why the outcome of an event closes the link, if it does.
abbrev pub closing : Result Error ConnEvent → Option DisconnectReason
closing (ok (ConnEvent.disconnected reason)) = some reason
closing (ok ConnEvent.idle) = none
closing (ok ConnEvent.received) = none
closing (ok (ConnEvent.control op)) = none
closing (ok (ConnEvent.l2cap cid)) = none
closing (err e) = some local_error
closing panic = none

-- The event that the application gets for what the peer sent.
abbrev pub news : ConnEvent → List BleEvent
news (ConnEvent.control op) = ll_control op ∷ []
news (ConnEvent.l2cap cid) = Ble.l2cap cid ∷ []
news ConnEvent.idle = []
news ConnEvent.received = []
news (ConnEvent.disconnected reason) = []

abbrev pub data_news : Conn → List BleEvent
data_news c = if ltb 0 c.values.rx_data_len then conn_data ∷ [] else []

-- The connection is there, and what has been received is marked as read.
pub record Open (c : Conn) (b : Ble) : Type 0 where
  pub link : Conn
  pub held : b.conn ≡ some link
  pub read : link.values.rx_data_len ≡ 0
  pub bytes : link.values.rx_data ≡ c.values.rx_data

no_bytes : (xs : List ℕ) → slice {E = ⊥} xs 0 0 ≡ ok []
no_bytes xs = rw (le→leb 0 (length xs) (omega arith)) refl

report_data_lem :
    (b : Ble) (c : Conn) (xs : List BleEvent)
    → b.conn ≡ some c
    → Pending b xs
    → length xs + 1 < 8
    → (b' : Ble) × (report_data (some c) b ≡ ok b') × Pending b' (xs ++ data_news c) × Open c b'
report_data_lem b c xs e h room = elim (ltb-cases 0 c.values.rx_data_len) [
  | inl (_, some_data) ↦
      let c' : Conn = record c { values = record (c.values) { rx_data_len = 0 } } in
      let b' : Ble = record b { conn = some c' } in
      let (q, pushed, held) = push-ok {E = Blocked} b' xs conn_data h room in
      (
        record b' { events = q },
        rw (some_data, pushed) refl,
        rw some_data held,
        record { link = c'; held = refl; read = refl; bytes = refl },
      )
  | inr (small, no_data) ↦ (
    b,
    rw no_data,
    rw (no_data, append-nil xs) h,
    record { link = c; held = e; read = omega arith; bytes = refl },
  )
]

reported_lem :
    (b : Ble) (evt : ConnEvent) (xs : List BleEvent)
    → Pending b xs
    → length xs + 1 < 8
    → (q : Queue BleEvent) × (reported evt b ≡ ok (record b { events = q }))
      × Holds 8 q (xs ++ news evt)
      × (length (xs ++ news evt) ≤ length xs + 1)
reported_lem b (ConnEvent.control op) xs h room =
    let (q, e, held) = push-ok {E = Blocked} b xs (ll_control op) h room in
    (q, e, held, omega (arith, length-append xs (ll_control op ∷ [])))
reported_lem b (ConnEvent.l2cap cid) xs h room =
    let (q, e, held) = push-ok {E = Blocked} b xs (Ble.l2cap cid) h room in
    (q, e, held, omega (arith, length-append xs (Ble.l2cap cid ∷ [])))
reported_lem b ConnEvent.idle xs h room =
    (b.events, refl, rw (append-nil xs) h, rw (append-nil xs) (omega arith))
reported_lem b ConnEvent.received xs h room =
    (b.events, refl, rw (append-nil xs) h, rw (append-nil xs) (omega arith))
reported_lem b (ConnEvent.disconnected reason) xs h room =
    (b.events, refl, rw (append-nil xs) h, rw (append-nil xs) (omega arith))

-- An event that leaves the link open is reported, and then the data.
after_event-eq :
    (b : Ble) (evt : ConnEvent)
    → closing (ok evt) ≡ none
    → after_event (ok evt) b ≡ (do b ← reported evt b; b ← report_data b.conn b; ok (true, b))
after_event-eq b (ConnEvent.control op) h = refl
after_event-eq b (ConnEvent.l2cap cid) h = refl
after_event-eq b ConnEvent.idle h = refl
after_event-eq b ConnEvent.received h = refl
after_event-eq b (ConnEvent.disconnected reason) h = cc

after_event_lem :
    (b : Ble) (c : Conn) (evt : ConnEvent) (xs : List BleEvent)
    → closing (ok evt) ≡ none
    → b.conn ≡ some c
    → Pending b xs
    → length xs + 2 < 8
    → (b' : Ble) × (after_event (ok evt) b ≡ ok (true, b'))
      × Pending b' (xs ++ news evt ++ data_news c)
      × Open c b'
after_event_lem b c evt xs stays e h room =
    let (q, reports, held, few) = reported_lem b evt xs h (omega arith) in
    let b1 : Ble = record b { events = q } in
    let (b', data_reports, held', o) = report_data_lem b1 c (xs ++ news evt) e held (omega arith) in
    let rest : Option Conn → Result Blocked (Bool × Ble) =
      λ o. report_data o b1 >>= (λ b2. ok (true, b2)) in
    let told = ap (λ m. m >>= (λ b2. report_data b2.conn b2 >>= (λ b3. ok (true, b3)))) reports in
    (
      b',
      after_event-eq b evt stays
          ∙ told
          ∙ ap rest e
          ∙ ap (λ m. m >>= (λ b3. ok (true, b3))) data_reports,
      held',
      o,
    )

-- When the peer was heard in time, the tick does what the outcome of the event says.
in_time :
    (encrypt : List ℕ → List ℕ → List ℕ) (block : List ℕ → Bool → List ℕ → Bool × List ℕ) (b : Ble)
    (c c' : Conn) (io io' : Io) (t : ℕ) (result : Result Error ConnEvent)
    → b.conn ≡ some c
    → now b.io ≡ ok (t, io)
    → elapsed t c.last_rx < c.timeout * 313
    → event encrypt block c io ≡ ok (result, c', io')
    → conn_tick encrypt block b ≡ after_event result (record b { conn = some c'; io = io' })
unfolding conn_tick
in_time encrypt block b c c' io io' t result e reading fresh step =
    ap (λ o. tick_on encrypt block o b) e
    ∙ rw (reading, leb-false (c.timeout * 313) (elapsed t c.last_rx) fresh, step) refl

module _ (encrypt : List ℕ → List ℕ → List ℕ) (block : List ℕ → Bool → List ℕ → Bool × List ℕ) where
  -- A link that is open, with the peer heard in time, on a queue with room for three events: if the
  -- connection event ends without closing the link, the tick reports it open. The queue then has what
  -- the peer sent and, if data has arrived, the event for it; but the data counts as read already, so
  -- that `conn_rx_data` is empty when the application gets that event.
  pub conn_tick-stays :
      (b : Ble) (c c' : Conn) (io io' : Io) (t : ℕ) (evt : ConnEvent) (xs : List BleEvent)
      → b.conn ≡ some c
      → now b.io ≡ ok (t, io)
      → elapsed t c.last_rx < c.timeout * 313
      → event encrypt block c io ≡ ok (ok evt, c', io')
      → closing (ok evt) ≡ none
      → Pending b xs
      → length xs + 2 < 8
      → (b' : Ble) × (conn_tick encrypt block b ≡ ok (true, b'))
        × Pending b' (xs ++ news evt ++ data_news c')
        × Open c' b'
        × (conn_rx_data b' ≡ ok [])
  unfolding conn_rx_data
  conn_tick-stays b c c' io io' t evt xs e reading fresh step stays h room =
      let b1 : Ble = record b { conn = some c'; io = io' } in
      let (b', tick, held, o) = after_event_lem b1 c' evt xs stays refl h room in
      (
        b',
        in_time encrypt block b c c' io io' t (ok evt) e reading fresh step ∙ tick,
        held,
        o,
        ap rx_data_of o.held
            ∙ ap (λ (n : ℕ). slice o.link.values.rx_data 0 n) o.read
            ∙ no_bytes o.link.values.rx_data,
      )
