-- ===== src/Hw/Io.antt =====
-- The radio and the timer, and the loops that wait on them, which src/hw/ble.rs and src/hw/conn.rs
-- have in many places. The values that the timer is read with, and whether its compare event is
-- pending, are inputs, as the receptions are. A loop runs over the inputs; if they end before the loop
-- does, the result is `blocked`.
pub mod Wait
use nrf_ble.Base.{
  ℕ, zero, suc, ◌+◌, ◌%◌, ◌^◌, leb, ltb, List, [], ◌∷◌, Bool, true, false, if◌then◌else◌, Option,
  none, some,
}
use nrf_ble.Base.Results.{Result, ok, err, panic, Error, ◌>>=◌}
use nrf_ble.Hw.Timers.{timeout_ticks}
use nrf_ble.Hw.Radio
use nrf_ble.Hw.Radio.{Radio, Reception, receive_poll}

pub data Blocked : Type 0 where
  blocked : Blocked

-- `compare` is CC0.
pub record BtTimer : Type 0 where
  pub readings : List ℕ
  pub compare : ℕ
  pub compare_events : List Bool

pub record Io : Type 0 where
  pub radio : Radio
  pub timer : BtTimer

-- `BtTimer::now`
abbrev pub read_timer : List ℕ → Io → Result Blocked (ℕ × Io)
read_timer [] io = err blocked
read_timer (t ∷ later) io = ok (t, record io { timer = record (io.timer) { readings = later } })

unfoldable pub now : Io → Result Blocked (ℕ × Io)
now io = read_timer io.timer.readings io

unfoldable pub set_compare : ℕ → Io → Io
set_compare value io = record io { timer = record (io.timer) { compare = value } }

-- `timer.now().wrapping_add(ticks)`
unfoldable pub deadline_in : ℕ → Io → Result Blocked (ℕ × Io)
deadline_in ticks io = do (t, io) ← now io; ok ((t + ticks) % 2 ^ 32, io)

abbrev pub with_radio : (Radio → Radio) → Io → Io
with_radio f io = record io { radio = f io.radio }

-- `while self.timer.now() < deadline {}`: the readings behind the first one that ends the loop.
unfoldable pub wait_loop : ℕ → List ℕ → Result Blocked (List ℕ)
wait_loop deadline [] = err blocked
wait_loop deadline (t ∷ later) =
    let rest = wait_loop deadline later in if ltb t deadline then rest else ok later

unfoldable pub wait_until : ℕ → Io → Result Blocked Io
wait_until deadline io = do
  later ← wait_loop deadline io.timer.readings
  ok (record io { timer = record (io.timer) { readings = later } })

-- A deadline of so many ticks, its compare value, and the wait for it.
unfoldable pub pause : ℕ → Io → Result Blocked Io
pause ticks io = do
  (deadline, io) ← deadline_in ticks io
  wait_until deadline (set_compare deadline io)

-- `while !timer.compare_pending() {}`
unfoldable pub wait_compare : List Bool → Result Blocked (List Bool)
wait_compare [] = err blocked
wait_compare (pending ∷ later) = let rest = wait_compare later in if pending then ok later else rest

-- How a window of listening ends: with a packet of this length, at the deadline, or with a wrong CRC.
pub data Heard : Type 0 where
  heard : ℕ → Heard
  timed_out failed : Heard

abbrev pub polled :
    Result Error (Option ℕ)
    → List ℕ
    → Io
    → (Io → Result Blocked (Heard × List ℕ × Io))
    → Result Blocked (Heard × List ℕ × Io)
polled (ok (some len)) buf io again = ok (heard len, buf, io)
polled (ok none) buf io again = again io
polled (err e) buf io again = ok (failed, buf, io)
polled panic buf io again = panic

-- A poll with its outcome; the outcomes of later polls are left.
abbrev pub poll :
    Reception
    → List Reception
    → List ℕ
    → Io
    → Result Blocked (Result Error (Option ℕ) × List ℕ × Io)
poll r later buf io = do
  (result, buf, radio) ← receive_poll r buf io.radio
  ok (result, buf, record io { radio = record radio { receptions = later } })

-- `loop { match radio.receive_poll(buf) { .. Ok(None) => if timer.now() >= deadline { .. } .. } }`
unfoldable pub listen_loop : ℕ → List Reception → List ℕ → Io → Result Blocked (Heard × List ℕ × Io)
listen_loop deadline [] buf io = err blocked
listen_loop deadline (r ∷ later) buf io =
    let again : List ℕ → Io → Result Blocked (Heard × List ℕ × Io) = listen_loop deadline later in
    (do
      (result, buf, io) ← poll r later buf io
      polled result buf io (λ io. do
        (t, io) ← now io
        if leb deadline t then ok (timed_out, buf, io) else again buf io))

unfoldable pub listen_until : ℕ → List ℕ → Io → Result Blocked (Heard × List ℕ × Io)
listen_until deadline buf io = listen_loop deadline io.radio.receptions buf io

-- The loops that count turns instead: `spins += 1; if spins > limit { break; }`, with the number of
-- turns left.
unfoldable pub spin_loop : ℕ → List Reception → List ℕ → Io → Result Blocked (Heard × List ℕ × Io)
spin_loop spins [] buf io = err blocked
spin_loop zero (r ∷ later) buf io = do
  (result, buf, io) ← poll r later buf io
  polled result buf io (λ io. ok (timed_out, buf, io))
spin_loop (suc spins) (r ∷ later) buf io =
    let again : List ℕ → Io → Result Blocked (Heard × List ℕ × Io) = spin_loop spins later in
    (do (result, buf, io) ← poll r later buf io; polled result buf io (λ io. again buf io))

unfoldable pub listen_spins : ℕ → List ℕ → Io → Result Blocked (Heard × List ℕ × Io)
listen_spins limit buf io = spin_loop limit io.radio.receptions buf io

unfoldable pub transmit : List ℕ → Io → Io
transmit packet io = record io { radio = Radio.transmit packet io.radio }

abbrev pub set_channel : ℕ → Io → Io
set_channel channel io = record io { radio = Radio.tune channel io.radio }
