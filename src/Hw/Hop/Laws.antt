-- ===== src/Hw/Hop/Laws.antt =====
-- The hop stays on the channels of the map.
use nrf_ble.Base.{
  ℕ, zero, suc, ◌+◌, ◌-◌, ◌/◌, ◌%◌, ◌^◌, ◌≤◌, ◌<◌, ◌≡◌, arith, ◌∙◌, ap, List, length, bit_and, not,
  ◌==◌, ◌≢◌, Bool, true, Bool-cases, inl, inr,
}
use nrf_ble.Base.Results.{ok}
use nrf_ble.Base.Slices.{index-ok}
use nrf_ble.Ll.Channels.{next_data_channel}
use nrf_ble.Hw.Hop.{has_channel, next_used, next_channel}

has_channel-ok :
    (map : List ℕ) (ch : ℕ) → length map ≡ 5 → ch < 37 → (b : Bool) × (has_channel map ch ≡ ok b)
unfolding has_channel
has_channel-ok map ch size small =
    let (byte, e) = index-ok {E = ⊥} map (ch / 8) (omega arith) in
    (not (bit_and byte (2 ^ (ch % 8)) == 0), rw e)

-- Some channel of the map is `far` hops of one away, and there are turns enough to reach it.
next_used_lem :
    (turns far : ℕ) (map : List ℕ) (ch c : ℕ)
    → length map ≡ 5
    → ch < 37
    → c ≡ (ch + far) % 37
    → far ≤ turns
    → has_channel map c ≡ ok true
    → (found : ℕ) × (next_used turns map ch ≡ ok found)
      × (found < 37)
      × (has_channel map found ≡ ok true)
unfolding next_used
next_used_lem zero far map ch c size small away enough has =
    let here : c ≡ ch = omega arith in
    let has' : has_channel map ch ≡ ok true = rw here at has in (ch, rw has', small, has')
next_used_lem (suc turns) far map ch c size small away enough has =
    let (b, e) = has_channel-ok map ch size small in
    elim (Bool-cases b) [
      | inl found ↦ (ch, rw (e, found), small, e ∙ ap ok found)
      | inr missing ↦
          let apart : ch ≢ c = λ same. cc in
          let (found, r, s, h) =
            next_used_lem turns (far - 1) map ((ch + 1) % 37) c size (omega arith) (omega arith)
              (omega arith) has in
          (found, rw (e, missing) r, s, h)
    ]

-- If a map of five bytes has any of the 37 data channels, the hop leads to a channel of the map.
pub next_channel_lem :
    (current hop c : ℕ) (map : List ℕ)
    → length map ≡ 5
    → c < 37
    → has_channel map c ≡ ok true
    → (found : ℕ) × (next_channel current hop map ≡ ok found)
      × (found < 37)
      × (has_channel map found ≡ ok true)
unfolding next_channel
next_channel_lem current hop c map size small has =
    let start = (current + hop) % 2 ^ 8 % 37 in
    next_used_lem 37 ((c + 37 - start) % 37) map start c size (omega arith) (omega arith)
      (omega arith) has

-- A hop onto a channel of the map stays there: it is the hop of `next_data_channel`.
pub next_channel_direct :
    (current hop : ℕ) (map : List ℕ)
    → has_channel map (next_data_channel current hop) ≡ ok true
    → next_channel current hop map ≡ ok (next_data_channel current hop)
unfolding next_channel next_used next_data_channel
next_channel_direct current hop map has = rw has
