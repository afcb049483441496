-- ===== src/Ll/Channels.antt =====
-- Physical channels: src/ll/channels.rs.
pub mod Laws
use nrf_ble.Base.{ℕ, ◌+◌, ◌*◌, ◌/◌, ◌%◌, ◌^◌, bit_and, List, [], ◌∷◌, leb, ◌==◌, if◌then◌else◌}
use nrf_ble.Base.Results.{Result, ok, err, Error, invalid_channel}

abbrev pub adv_access_address : ℕ
adv_access_address = 0x8E89BED6

abbrev pub adv_channels : List ℕ
adv_channels = 37 ∷ 38 ∷ 39 ∷ []

abbrev pub hop_increments : List ℕ
hop_increments =
    5 ∷ 11 ∷ 19 ∷ 17 ∷ 9 ∷ 15 ∷ 6 ∷ 8 ∷ 13 ∷ 7 ∷ 10 ∷ 14 ∷ 12 ∷ 18 ∷ 3 ∷ 16 ∷ 4 ∷ 0 ∷ 1 ∷ 2 ∷ []

-- In MHz.
unfoldable pub channel_frequency : ℕ → Result Error ℕ
channel_frequency channel =
    if leb channel 36
    then ok (2404 + 2 * channel)
    else if channel == 37
    then ok 2402
    else if channel == 38
    then ok 2426
    else if channel == 39
    then ok 2480
    else err invalid_channel

-- `current + hop` is a `u8`; the callers' values are below 37 and 32, so that it does not wrap.
unfoldable pub next_data_channel : ℕ → ℕ → ℕ
next_data_channel current hop = (current + hop) % 2 ^ 8 % 37

unfoldable pub preamble_for_access_address : ℕ → ℕ
preamble_for_access_address aa = if bit_and aa 1 == 0 then 0x55 else 0xAA

-- BASE0 and PREFIX0.AP0; the shift drops the bits above 32.
unfoldable pub access_address_to_base_prefix : ℕ → ℕ × ℕ
access_address_to_base_prefix aa = (bit_and aa 0xFFFFFF * 2 ^ 8 % 2 ^ 32, aa / 2 ^ 24 % 256)
