-- ===== src/Hw/Ble/Forever.antt =====
-- The blocking loops of src/hw/ble.rs: `adv_forever`, `scan_forever`, `conn_forever` and
-- `drain_events`. The callback of the application has a state of its own. A loop runs for a number of
-- turns; one that has not ended then is `blocked`.
use nrf_ble.Base.{
  ℕ, zero, suc, ◌+◌, ◌<◌, ◌≡◌, refl, ap, arith, List, [], ◌∷◌, ◌++◌, length, length-append, Bool,
  true, if◌then◌else◌, Option, none, some,
}
use nrf_ble.Base.Results.{Result, ok, err, lift, ◌>>=◌}
use nrf_ble.Hw.Ble.{Ble, BleEvent, next_event, adv_stopped, idle, stop_pending}
use nrf_ble.Hw.Ble.Advertise.{adv_tick}
use nrf_ble.Hw.Ble.Events.{Pending, push-ok}
use nrf_ble.Hw.Ble.Gap.{is_idle}
use nrf_ble.Hw.Ble.Link.{conn_tick}
use nrf_ble.Hw.Ble.Scan.{scan_tick}
use nrf_ble.Hw.Io.{Io, Blocked, blocked, wait_compare}
use nrf_ble.Hw.Queue.Laws.{next_event-ok, next_event-none}

-- `while !self.timer.compare_pending() {}`
abbrev pub await : Ble → Result Blocked Ble
await b = do
  later ← wait_compare b.io.timer.compare_events
  ok (record b { io = record (b.io) { timer = record (b.io.timer) { compare_events = later } } })

module _ {S : Type 0} (on_event : BleEvent → S → Ble → Result Blocked (S × Ble)) where
  abbrev pub drained :
      Option BleEvent → S → Ble → (S → Ble → Result Blocked (S × Ble)) → Result Blocked (S × Ble)
  drained none s b again = ok (s, b)
  drained (some evt) s b again = do (s, b) ← on_event evt s b; again s b

  unfoldable pub drain_events : ℕ → S → Ble → Result Blocked (S × Ble)
  drain_events zero s b = err blocked
  drain_events (suc turns) s b = do
    (evt, b) ← lift (next_event b)
    drained evt s b (drain_events turns)

  -- With the turns of the outer loop, and those of each `drain_events`.
  unfoldable pub adv_forever : ℕ → ℕ → S → Ble → Result Blocked (S × Ble)
  adv_forever zero turns s b = err blocked
  adv_forever (suc n) turns s b =
      let again : S → Ble → Result Blocked (S × Ble) = adv_forever n turns in
      (do
        b ← await b
        b ← adv_tick b
        (s, b) ← drain_events turns s b
        if is_idle b.adv_state then ok (s, b) else again s b)

  unfoldable pub scan_forever : ℕ → ℕ → S → Ble → Result Blocked (S × Ble)
  scan_forever zero turns s b = err blocked
  scan_forever (suc n) turns s b =
      let again : S → Ble → Result Blocked (S × Ble) = scan_forever n turns in
      (do
        b ← await b
        b ← scan_tick b
        (s, b) ← drain_events turns s b
        if is_idle b.scan_state then ok (s, b) else again s b)

  module _ (encrypt : List ℕ → List ℕ → List ℕ)
      (block : List ℕ → Bool → List ℕ → Bool × List ℕ) where
    unfoldable pub conn_forever : ℕ → ℕ → S → Ble → Result Blocked (S × Ble)
    conn_forever zero turns s b = err blocked
    conn_forever (suc n) turns s b =
        let again : S → Ble → Result Blocked (S × Ble) = conn_forever n turns in
        (do
          (goes_on, b) ← conn_tick encrypt block b
          (s, b) ← drain_events turns s b
          if goes_on then again s b else ok (s, b))

-- A callback that only looks at the events.
abbrev pub watching :
    {S : Type 0} → (BleEvent → S → S) → BleEvent → S → Ble → Result Blocked (S × Ble)
watching look evt s b = ok (look evt s, b)

-- What it has seen behind these events, the oldest first.
abbrev pub seen : {S : Type 0} → (BleEvent → S → S) → List BleEvent → S → S
seen look [] s = s
seen look (evt ∷ later) s = seen look later (look evt s)

drain_events_lem :
    {S : Type 0} (look : BleEvent → S → S) (xs : List BleEvent) (turns : ℕ) (s : S) (b : Ble)
    → Pending b xs
    → length xs < turns
    → (b' : Ble) × (drain_events (watching look) turns s b ≡ ok (seen look xs s, b'))
      × Pending b' []
      × (b'.adv_state ≡ b.adv_state)
      × (b'.io ≡ b.io)
unfolding drain_events next_event
drain_events_lem look xs zero s b held more = absurd (omega arith)
drain_events_lem look [] (suc turns) s b held more =
    let (q, takes, held') = next_event-none 8 b.events held in
    (record b { events = q }, rw takes refl, held', refl, refl)
drain_events_lem look (evt ∷ xs) (suc turns) s b held more =
    let (q, takes, held') = next_event-ok 8 b.events xs evt held in
    let (b', rest, empty, same, still) =
      drain_events_lem look xs turns (look evt s) (record b { events = q }) held' (omega arith) in
    (b', rw takes rest, empty, same, still)

-- A stack that has been asked to stop advertising, with the timer's event pending and room in its queue,
-- under a callback that only looks at the events: `adv_forever` ends in its first turn. The callback has
-- then seen all events in their order, the one for the stop behind them, and nothing was transmitted.
pub adv_forever-stops :
    {S : Type 0} (look : BleEvent → S → S) (s : S) (b : Ble) (later : List Bool)
    (xs : List BleEvent) (n turns : ℕ)
    → b.adv_state ≡ stop_pending
    → b.io.timer.compare_events ≡ true ∷ later
    → Pending b xs
    → length xs + 1 < 8
    → length xs + 1 < turns
    → (b' : Ble) × (adv_forever (watching look) (suc n) turns s b
        ≡ ok (seen look (xs ++ adv_stopped ∷ []) s, b'))
      × (b'.adv_state ≡ idle)
      × (b'.io.radio.air ≡ b.io.radio.air)
      × Pending b' []
unfolding adv_forever adv_tick wait_compare
adv_forever-stops look s b later xs n turns asked pending held room more =
    let io : Io = record (b.io) { timer = record (b.io.timer) { compare_events = later } } in
    let b1 : Ble = record b { io = io; adv_state = idle } in
    let (q, pushed, held') = push-ok {E = Blocked} b1 xs adv_stopped held room in
    let b2 : Ble = record b1 { events = q } in
    let size = length-append xs (adv_stopped ∷ []) in
    let (b3, drains, empty, same, still) =
      drain_events_lem look (xs ++ adv_stopped ∷ []) turns s b2 held' (omega arith) in
    (b3, simp (pending, asked, pushed, drains, same) refl, same, ap (λ i. i.radio.air) still, empty)
