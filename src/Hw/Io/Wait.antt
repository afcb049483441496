-- ===== src/Hw/Io/Wait.antt =====
-- When the wait for a deadline ends. The timer counts 24 bits, the deadline 32.
use nrf_ble.Base.{
  ℕ, ◌+◌, ◌%◌, ◌^◌, ◌≤◌, ◌<◌, ◌≡◌, refl, arith, lt→ltb, lt_false, List, [], ◌∷◌, ◌++◌,
}
use nrf_ble.Base.Results.{ok, err}
use nrf_ble.Hw.Io.{Io, blocked, wait_loop, wait_until, deadline_in, now, set_compare, pause}

-- All readings are below a value.
abbrev pub Below : ℕ → List ℕ → Type 0
Below n [] = Unit {0}
Below n (t ∷ later) = (t < n) × Below n later

wait_loop-ends :
    (deadline : ℕ) (early : List ℕ) (t : ℕ) (later : List ℕ)
    → Below deadline early
    → deadline ≤ t
    → wait_loop deadline (early ++ t ∷ later) ≡ ok later
unfolding wait_loop
wait_loop-ends deadline [] t later below h = rw (lt_false t deadline h) refl
wait_loop-ends deadline (x ∷ early) t later below h =
    rw (lt→ltb x deadline below.0) (wait_loop-ends deadline early t later below.1 h)

wait_loop-blocked :
    (deadline n : ℕ) (readings : List ℕ)
    → Below n readings
    → n ≤ deadline
    → wait_loop deadline readings ≡ err blocked
unfolding wait_loop
wait_loop-blocked deadline n [] below h = refl
wait_loop-blocked deadline n (t ∷ later) below h =
    rw (lt→ltb t deadline (let small = below.0 in omega arith))
      (wait_loop-blocked deadline n later below.1 h)

-- The state behind a pause: the deadline is the compare value, and these readings are left.
abbrev pub paused : Io → ℕ → List ℕ → Io
paused io deadline later = record io {
  timer = record (io.timer) { readings = later; compare = deadline };
}

-- A pause from a timer value on: if the deadline fits the timer's 24 bits, it ends at the first
-- reading that reaches the deadline.
pub pause-ends :
    (io : Io) (ticks t : ℕ) (early : List ℕ) (last : ℕ) (later : List ℕ)
    → io.timer.readings ≡ t ∷ (early ++ last ∷ later)
    → t + ticks < 2 ^ 24
    → Below (t + ticks) early
    → t + ticks ≤ last
    → pause ticks io ≡ ok (paused io (t + ticks) later)
unfolding pause deadline_in wait_until now set_compare
pause-ends io ticks t early last later e fits below reached =
    let same : (t + ticks) % 2 ^ 32 ≡ t + ticks = omega arith in
    rw (e, same, wait_loop-ends (t + ticks) early last later below reached) refl

-- A deadline of 2 ^ 24 ticks or more is never reached: whatever values the timer of 24 bits is read
-- with, the wait goes on.
pub pause-hangs :
    (io : Io) (ticks t : ℕ) (later : List ℕ)
    → io.timer.readings ≡ t ∷ later
    → Below (2 ^ 24) later
    → 2 ^ 24 ≤ t + ticks
    → t + ticks < 2 ^ 32
    → pause ticks io ≡ err blocked
unfolding pause deadline_in wait_until now set_compare
pause-hangs io ticks t later e below far fits =
    let same : (t + ticks) % 2 ^ 32 ≡ t + ticks = omega arith in
    rw (e, same, wait_loop-blocked (t + ticks) (2 ^ 24) later below far) refl
