-- ===== src/Hw/Hop.antt =====
-- The hop over the channels of a map: `next_channel` of src/hw/conn.rs. A map has five bytes.
pub mod Laws
use nrf_ble.Base.{ℕ, zero, suc, ◌+◌, ◌/◌, ◌%◌, ◌^◌, ◌==◌, bit_and, List, Bool, not, if◌then◌else◌}
use nrf_ble.Base.Results.{Result, ok, ◌>>=◌, index}

-- Whether the map has the channel's bit.
unfoldable pub has_channel : List ℕ → ℕ → Result ⊥ Bool
has_channel map ch = do byte ← index map (ch / 8); ok (not (bit_and byte (2 ^ (ch % 8)) == 0))

-- The loop, with as many turns left as `guard` has to 37.
unfoldable pub next_used : ℕ → List ℕ → ℕ → Result ⊥ ℕ
next_used zero map ch = do found ← has_channel map ch; ok ch
next_used (suc turns) map ch = do
  found ← has_channel map ch
  if found then ok ch else next_used turns map ((ch + 1) % 37)

-- `current + hop` is a `u8`.
unfoldable pub next_channel : ℕ → ℕ → List ℕ → Result ⊥ ℕ
next_channel current hop map = next_used 37 map ((current + hop) % 2 ^ 8 % 37)
