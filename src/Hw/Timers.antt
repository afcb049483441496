-- ===== src/Hw/Timers.antt =====
-- Interval arithmetic: src/hw/timers.rs, and `PeriodicSync` of src/hw/ble.rs. An interval is a
-- `u16`, a tick count a `u32`.
pub mod Laws
use nrf_ble.Base.{ℕ, ◌+◌, ◌*◌, ◌/◌, ◌%◌, ◌^◌, ◌==◌, if◌then◌else◌}

abbrev pub ticks_per_unit : ℕ
ticks_per_unit = 625

abbrev pub ticks_per_unit_denom : ℕ
ticks_per_unit_denom = 32

pub record IntervalAccum : Type 0 where
  pub whole : ℕ
  pub frac_part : ℕ
  pub frac : ℕ

unfoldable pub new : IntervalAccum
new = record {
  whole = ticks_per_unit / ticks_per_unit_denom;
  frac_part = ticks_per_unit % ticks_per_unit_denom;
  frac = 0;
}

unfoldable pub new_125ms : IntervalAccum
new_125ms = record { whole = 39; frac_part = 2; frac = 0 }

-- The ticks, and the accumulator afterwards.
unfoldable pub next : IntervalAccum → ℕ → ℕ × IntervalAccum
next acc units =
    let base = units * acc.whole % 2 ^ 32 in
    let frac = (acc.frac + units * acc.frac_part % 2 ^ 32) % 2 ^ 32 in
    let carry = frac / ticks_per_unit_denom in
    ((base + carry) % 2 ^ 32, record acc { frac = frac % ticks_per_unit_denom })

-- `div_ceil(32)`: the quotient, and one more if there is a remainder.
unfoldable pub div_ceil_denom : ℕ → ℕ
div_ceil_denom n = if n % 32 == 0 then n / 32 else n / 32 + 1

unfoldable pub window_ticks : ℕ → ℕ
window_ticks units = div_ceil_denom (units * ticks_per_unit % 2 ^ 32)

unfoldable pub timeout_ticks : ℕ → ℕ
timeout_ticks micros = div_ceil_denom micros

pub record PeriodicSync : Type 0 where
  pub channel : ℕ
  pub units : ℕ
  pub frac : ℕ
  pub next_event : ℕ

unfoldable pub next_interval : PeriodicSync → ℕ × PeriodicSync
next_interval sync =
    let base = sync.units * 39 % 2 ^ 32 in
    let frac = (sync.frac + sync.units * 2 % 2 ^ 32) % 2 ^ 32 in
    let carry = frac / 32 in ((base + carry) % 2 ^ 32, record sync { frac = frac % 32 })
