-- ===== src/Hw/Timers/Laws.antt =====
-- Long schedules do not drift.
use nrf_ble.Base.{ℕ, ◌+◌, ◌*◌, ◌/◌, ◌%◌, ◌^◌, ◌≤◌, ◌<◌, ◌≡◌, refl, arith, ◌∙◌, List, [], ◌∷◌, All}
use nrf_ble.Hw.Timers.{
  IntervalAccum, new, new_125ms, next, div_ceil_denom, window_ticks, timeout_ticks, PeriodicSync,
  next_interval,
}

pub sum : List ℕ → ℕ
sum [] = 0
sum (n ∷ ns) = n + sum ns

-- The ticks of several intervals, and the accumulator afterwards.
unfoldable pub run : IntervalAccum → List ℕ → ℕ × IntervalAccum
run acc [] = (0, acc)
run acc (units ∷ us) =
    let step = next acc units in let rest = run step.1 us in (step.0 + rest.0, rest.1)

abbrev pub IsU16 : ℕ → Type 0
IsU16 n = n < 2 ^ 16

-- An accumulator of 0.625 ms units, and one of 1.25 ms units.
abbrev half : ℕ → IntervalAccum
half frac = record { whole = 19; frac_part = 17; frac = frac }

abbrev full : ℕ → IntervalAccum
full frac = record { whole = 39; frac_part = 2; frac = frac }

run-half :
    (us : List ℕ) (frac : ℕ)
    → All IsU16 us
    → frac < 32
    → (run (half frac) us).0 ≡ (frac + sum us * 625) / 32
unfolding run next sum
run-half [] frac h small = omega arith
run-half (u ∷ us) frac h small =
    let after = (frac + u * 17) % 32 in
    let rest = run-half us after h.1 (omega arith) in
    let bound = h.0 in
    let state : (frac + u * 17 % 2 ^ 32) % 2 ^ 32 % 32 ≡ after = omega arith in
    rw (state, rest) (omega arith)

run-full :
    (us : List ℕ) (frac : ℕ)
    → All IsU16 us
    → frac < 32
    → (run (full frac) us).0 ≡ (frac + sum us * 1250) / 32
unfolding run next sum
run-full [] frac h small = omega arith
run-full (u ∷ us) frac h small =
    let after = (frac + u * 2) % 32 in
    let rest = run-full us after h.1 (omega arith) in
    let bound = h.0 in
    let state : (frac + u * 2 % 2 ^ 32) % 2 ^ 32 % 32 ≡ after = omega arith in
    rw (state, rest) (omega arith)

-- However many intervals a schedule has, the ticks counted for it are those of its whole length,
-- rounded down once: 625/32 ticks for each unit of 0.625 ms, 1250/32 for each of 1.25 ms.
pub run_lem :
    (us : List ℕ)
    → All IsU16 us
    → ((run new us).0 ≡ sum us * 625 / 32) × ((run new_125ms us).0 ≡ sum us * 1250 / 32)
unfolding new new_125ms
run_lem us h =
    (run-half us 0 h (omega arith) ∙ omega arith, run-full us 0 h (omega arith) ∙ omega arith)

-- A periodic synchronisation counts the ticks of an interval as the accumulator of 1.25 ms units
-- does.
pub next_interval_lem :
    (sync : PeriodicSync)
    → ((next_interval sync).0 ≡ (next (full sync.frac) sync.units).0)
      × ((next_interval sync).1.frac ≡ (next (full sync.frac) sync.units).1.frac)
unfolding next_interval next
next_interval_lem sync = (refl, refl)

-- A scan window and a timeout last at least as long as asked for, and less than one tick longer.
pub ticks_cover :
    (units micros : ℕ)
    → units < 2 ^ 16
    → (units * 625 ≤ window_ticks units * 32)
      × (window_ticks units * 32 < units * 625 + 32)
      × (micros ≤ timeout_ticks micros * 32)
      × (timeout_ticks micros * 32 < micros + 32)
unfolding window_ticks timeout_ticks div_ceil_denom
ticks_cover units micros h = (ground arith, ground arith, ground arith, ground arith)
