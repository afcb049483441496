-- ===== src/Gap/Ad.antt =====
-- Advertising data structures: src/gap/ad.rs.
pub mod Layout
pub mod Next
pub mod RoundTrip
use nrf_ble.Base.{
  ℕ, zero, suc, ◌+◌, List, [], ◌∷◌, length, leb, ltb, ◌==◌, bit_or, Bool, Option, none, some,
}
use nrf_ble.Base.{if◌then◌else◌}
use nrf_ble.Base.Results.{
  Result, ok, err, panic, Error, invalid_ad, invalid_length, buffer_too_small,
}
use nrf_ble.Base.Results.{◌>>=◌, index, slice, copy_to, put}

pub record AdEntry : Type 0 where
  pub ad_type : ℕ
  pub «data» : List ℕ

pub record AdIter : Type 0 where
  pub buf : List ℕ
  pub pos : ℕ

unfoldable pub new_iter : List ℕ → AdIter
new_iter buf = record { buf = buf; pos = 0 }

-- What `next` yields, none at the end, and the iterator afterwards; an error does not advance it.
unfoldable pub next : AdIter → Result ⊥ (Option (Result Error AdEntry) × AdIter)
next it = if leb (length it.buf) it.pos then ok (none, it) else (do
  len ← index it.buf it.pos
  if len == 0
      then ok (some (err invalid_ad), it)
      else if ltb (length it.buf) (it.pos + 1 + len)
      then ok (some (err invalid_ad), it)
      else (do
        ad_type ← index it.buf (it.pos + 1)
        rest ← slice it.buf (it.pos + 2) (it.pos + 1 + len)
        ok (
          some (ok (record { ad_type = ad_type; «data» = rest })),
          record { buf = it.buf; pos = it.pos + 1 + len },
        )))

-- `out` and `pos` during the loop of `build`.
unfoldable pub build_loop : List AdEntry → List ℕ → ℕ → Result Error (List ℕ × ℕ)
build_loop [] out pos = ok (out, pos)
build_loop (entry ∷ entries) out pos =
    let len = length entry.«data» + 1 in
    if ltb 254 (length entry.«data»)
    then err invalid_length
    else if ltb (length out) (pos + 1 + len)
    then err buffer_too_small
    else (do
      out ← put out pos len
      out ← put out (pos + 1) entry.ad_type
      out ← copy_to out (pos + 2) (pos + 1 + len) entry.«data»
      build_loop entries out (pos + 1 + len))

-- The buffer afterwards, and the number of bytes written.
unfoldable pub build : List AdEntry → List ℕ → Result Error (List ℕ × ℕ)
build entries out = build_loop entries out 0

unfoldable pub ad_flags_value : Bool → Bool → Bool → ℕ
ad_flags_value general_discoverable limited_discoverable br_edr_not_supported =
    let value = if limited_discoverable then bit_or 0 1 else 0 in
    let value = if general_discoverable then bit_or value 2 else value in
    if br_edr_not_supported then bit_or value 4 else value
