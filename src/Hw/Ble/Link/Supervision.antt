-- ===== src/Hw/Ble/Link/Supervision.antt =====
-- The supervision timeout of `conn_tick`, on a timer whose readings have 24 bits.
use nrf_ble.Base.{
  ℕ, ◌+◌, ◌*◌, ◌%◌, ◌^◌, ◌<◌, ◌≤◌, ◌≡◌, refl, ap, ◌∙◌, arith, leb-false, le→leb, ltb-cases, List,
  [], ◌∷◌, ◌++◌, append_assoc, length, length-append, Bool, false, none, some, ◌⊎◌, inl, inr,
}
use nrf_ble.Base.Results.{ok, ◌>>=◌}
use nrf_ble.Hw.Conn.Control.{DisconnectReason, supervision_timeout, local_error}
use nrf_ble.Hw.Conn.State.{Conn}
use nrf_ble.Hw.Conn.Event.{event}
use nrf_ble.Hw.Ble
use nrf_ble.Hw.Ble.{Ble, BleEvent}
use nrf_ble.Hw.Ble.Events.{Pending, push-ok}
use nrf_ble.Hw.Ble.Link.{conn_tick, tick_on, elapsed, close, after_event}
use nrf_ble.Hw.Io.{Io, Blocked, now, with_radio}
use nrf_ble.Hw.Radio

-- The stack afterwards has lost its connection and initialised its radio.
abbrev pub Closed : Io → Ble → Type 0
Closed io b = (b.conn ≡ none) × (b.io ≡ with_radio Radio.init io)

close_lem :
    (b : Ble) (reason : DisconnectReason) (xs : List BleEvent)
    → Pending b xs
    → length xs + 1 < 8
    → (b' : Ble) × (close reason b ≡ ok (false, b'))
      × Pending b' (xs ++ Ble.disconnected reason ∷ [])
      × Closed b.io b'
close_lem b reason xs h room =
    let b' : Ble = record b { conn = none; io = with_radio Radio.init b.io } in
    let (q, pushed, held) = push-ok {E = Blocked} b' xs (Ble.disconnected reason) h room in
    (record b' { events = q }, rw pushed refl, held, (refl, refl))

-- When the reading has not wrapped since the packet, the time that the code computes is the real one;
-- when it has, it is longer than every limit.
elapsed-wraps :
    (last_rx d limit : ℕ)
    → last_rx < 2 ^ 24
    → d < 2 ^ 24
    → limit < 2 ^ 16
    → (limit * 313 ≤ d) ⊎ (2 ^ 24 ≤ last_rx + d)
    → limit * 313 ≤ elapsed ((last_rx + d) % 2 ^ 24) last_rx
elapsed-wraps last_rx d limit hl hd ht (inl late) = omega arith
elapsed-wraps last_rx d limit hl hd ht (inr wrap) = omega arith

module _ (encrypt : List ℕ → List ℕ → List ℕ) (block : List ℕ → Bool → List ℕ → Bool × List ℕ) where
  -- The end of a link whose peer is taken for lost, and the tick after it.
  abbrev pub Lost : Ble → Io → List BleEvent → Type 0
  Lost b io xs =
      (b1 : Ble) × (b2 : Ble) × (conn_tick encrypt block b ≡ ok (false, b1))
      × Closed io b1
      × Pending b1 (xs ++ Ble.disconnected supervision_timeout ∷ [])
      × (conn_tick encrypt block b1 ≡ ok (false, b2))
      × Pending b2 (xs ++ Ble.disconnected supervision_timeout ∷ Ble.disconnected local_error ∷ [])

  lost :
      (b : Ble) (c : Conn) (io : Io) (t : ℕ) (xs : List BleEvent)
      → b.conn ≡ some c
      → now b.io ≡ ok (t, io)
      → c.timeout * 313 ≤ elapsed t c.last_rx
      → Pending b xs
      → length xs + 2 < 8
      → Lost b io xs
  unfolding conn_tick
  lost b c io t xs e reading late h room =
      let first = Ble.disconnected supervision_timeout ∷ [] in
      let (b1, closes, held, (gone, idle)) =
        close_lem (record b { io = io }) supervision_timeout xs h (omega arith) in
      let n = length-append xs first in
      let (b2, again, held', _) = close_lem b1 local_error (xs ++ first) held (omega arith) in
      (
        b1,
        b2,
        ap (λ o. tick_on encrypt block o b) e
            ∙ rw (reading, le→leb (c.timeout * 313) (elapsed t c.last_rx) late) closes,
        (gone, idle),
        held,
        ap (λ o. tick_on encrypt block o b1) gone ∙ again,
        rw (← append_assoc xs first (Ble.disconnected local_error ∷ [])) held',
      )

  -- The timer, of 24 bits, can be read, and a tick comes `d` of its ticks after the peer was last
  -- heard, less than one round of the timer; the connection has a 16-bit timeout, and the queue room
  -- for three events. If `d` is at least the timeout, or if the timer has wrapped since the peer was
  -- heard, however short the time is, the tick drops the connection, initialises the radio, returns
  -- false and queues the disconnection for the supervision timeout; a further tick returns false and
  -- queues a second disconnection, for a local error. Otherwise the tick runs the connection event,
  -- and does what its outcome asks for.
  pub conn_tick-supervision :
      (b : Ble) (c : Conn) (io : Io) (d : ℕ) (xs : List BleEvent)
      → b.conn ≡ some c
      → c.last_rx < 2 ^ 24
      → d < 2 ^ 24
      → now b.io ≡ ok ((c.last_rx + d) % 2 ^ 24, io)
      → c.timeout < 2 ^ 16
      → Pending b xs
      → length xs + 2 < 8
      → (((c.timeout * 313 ≤ d) ⊎ (2 ^ 24 ≤ c.last_rx + d)) × Lost b io xs)
        ⊎ ((d < c.timeout * 313)
            × (c.last_rx + d < 2 ^ 24)
            × (conn_tick encrypt block b ≡ (do
              (result, c', io') ← event encrypt block c io
              after_event result (record b { conn = some c'; io = io' }))))
  unfolding conn_tick
  conn_tick-supervision b c io d xs e hl hd reading ht h room =
      let t = (c.last_rx + d) % 2 ^ 24 in
      let ends : (c.timeout * 313 ≤ d) ⊎ (2 ^ 24 ≤ c.last_rx + d) → Lost b io xs = λ why.
        lost b c io t xs e reading (elapsed-wraps c.last_rx d c.timeout hl hd ht why) h room in
      elim (ltb-cases d (c.timeout * 313)) [
        | inr (late, _) ↦ inl (inl late, ends (inl late))
        | inl (soon, _) ↦ elim (ltb-cases (c.last_rx + d) (2 ^ 24)) [
          | inr (wrap, _) ↦ inl (inr wrap, ends (inr wrap))
          | inl (straight, _) ↦
              let fresh : elapsed t c.last_rx < c.timeout * 313 = omega arith in
              inr (
                soon,
                straight,
                ap (λ o. tick_on encrypt block o b) e
                    ∙ rw (reading, leb-false (c.timeout * 313) (elapsed t c.last_rx) fresh) refl,
              )
        ]
      ]
