-- ===== src/Ll/Channels/Laws.antt =====
-- Frequencies and the hop sequence.
use nrf_ble.Base.{ℕ, zero, suc, ◌+◌, ◌-◌, ◌*◌, ◌/◌, ◌%◌, ◌^◌, ◌≤◌, ◌<◌, ◌≡◌, refl, ◌∙◌, ◌⊎◌, arith}
use nrf_ble.Base.{true, ◌==◌, ==→eq, holds_below, holds_below_at}
use nrf_ble.Base.Bits.{bit_and_mask}
use nrf_ble.Base.Results.{ok}
use nrf_ble.Ll.Channels.{channel_frequency, next_data_channel, access_address_to_base_prefix}

-- A channel that has a frequency is one of the 40, and the frequency is even and in the band from
-- 2402 to 2480 MHz. The only other channel that can have it is 38 for 11 and 11 for 38.
pub channel_frequency_lem :
    (c d f : ℕ)
    → channel_frequency c ≡ ok f
    → channel_frequency d ≡ ok f
    → (c ≤ 39)
      × (2402 ≤ f)
      × (f ≤ 2480)
      × (f % 2 ≡ 0)
      × ((c ≡ d) ⊎ ((c ≡ 11) × (d ≡ 38)) ⊎ ((c ≡ 38) × (d ≡ 11)))
unfolding channel_frequency
channel_frequency_lem c d f hc hd = ground arith

-- `n` hops from a channel.
unfoldable pub hops : ℕ → ℕ → ℕ → ℕ
hops zero current hop = current
hops (suc n) current hop = next_data_channel (hops n current hop) hop

hops_sum : (n c hop : ℕ) → c < 37 → hop < 37 → hops n c hop ≡ (c + n * hop) % 37
unfolding hops next_data_channel
hops_sum zero c hop hc hh = omega arith
hops_sum (suc n) c hop hc hh = let before = hops_sum n c hop hc hh in omega arith

-- How many hops lead `d` channels further.
abbrev hops_needed : ℕ → ℕ → ℕ
hops_needed hop d = d * (hop ^ 35 % 37) % 37

needed_table :
    holds_below 36 (λ h. holds_below 37 (λ d. hops_needed (suc h) d * suc h % 37 == d)) ≡ true
unfolding holds_below
needed_table = refl

needed_at : (hop d : ℕ) → 0 < hop → hop < 37 → d < 37 → hops_needed hop d * hop % 37 ≡ d
needed_at zero d h0 hh hd = absurd (omega arith)
needed_at (suc h) d h0 hh hd =
    ==→eq _ d (holds_below_at 37 _ d (holds_below_at 36 _ h needed_table (omega arith)) hd)

-- With any hop from 1 to 36, the hop sequence leads from any data channel to any other in fewer
-- than 37 hops.
pub hops_reach :
    (c d hop : ℕ) → c < 37 → d < 37 → 0 < hop → hop < 37 → (n : ℕ) × (n < 37) × (hops n c hop ≡ d)
hops_reach c d hop hc hd h0 hh =
    let gap = (d + 37 - c) % 37 in
    let n = hops_needed hop gap in
    let right = needed_at hop gap h0 hh (omega arith) in
    (n, omega arith, hops_sum n c hop hc hh ∙ omega arith)

-- The register values determine the access address.
pub base_prefix_back :
    (aa : ℕ)
    → aa < 2 ^ 32
    → (access_address_to_base_prefix aa).1 * 2 ^ 24 + (access_address_to_base_prefix aa).0 / 2 ^ 8
      ≡ aa
unfolding access_address_to_base_prefix
base_prefix_back aa h = rw (bit_and_mask 24 aa) (omega arith)
