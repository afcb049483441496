-- ===== src/Hw/Ble/Advertise/Channel.antt =====
-- What a tick of the advertiser transmits, and on which channel.
use mathlib.Core.Path.{subst}
use nrf_ble.Base.{
  ℕ, zero, suc, ◌+◌, ◌-◌, ◌%◌, ◌^◌, ◌≤◌, ◌<◌, ◌≡◌, ◌≢◌, refl, ap, sym, ◌∙◌, arith, bit_and, ltb,
  ◌==◌, le→leb, holds_below, holds_below_at, &&-eq_true, List, ◌∷◌, ◌++◌, length, take, drop,
  length-take, length-append, Bool, true, false, ◌&&◌, ◌||◌, Option, none, some,
}
use nrf_ble.Base.Results.{ok, index}
use nrf_ble.Base.Slices.{slice_prefix, index-ok}
use nrf_ble.Ll.Addr.{is_random}
use nrf_ble.Ll.Channels.{channel_frequency, adv_channels}
use nrf_ble.Ll.Pdu.Adv.{AdvPdu, decode, adv_ind, adv_direct_ind, adv_nonconn_ind, adv_scan_ind}
use nrf_ble.Ll.Pdu.Adv.Layout.{layout, HasSizes}
use nrf_ble.Ll.Pdu.Adv.RoundTrip.{decode-encode_typed, IsDistinct, arrives}
use nrf_ble.Ll.Pdu.Header.{has_bit}
use nrf_ble.Hw.Ble.{
  Ble, AdvType, connectable_undirected, connectable_directed, scannable_undirected,
  non_connectable_undirected, running, front,
}
use nrf_ble.Hw.Ble.Advertise.{
  pick_channel, adv_pdu, build_adv_pdu, adv_tick, tick_in, tick_running, advertise, schedule,
}
use nrf_ble.Hw.Io
use nrf_ble.Hw.Io.{Io, BtTimer, Blocked, now, set_compare}
use nrf_ble.Hw.Radio
use nrf_ble.Hw.Timers.{next}
use nrf_ble.Hw.Radio.{Sent, Radio, tune, set_channel}

-- For each map and start: the channel found is one of the three, and in the map, if the map has one.
abbrev found : ℕ → ℕ → Bool
found idx map =
    bit_and map 7 == 0
    || (ltb (pick_channel 3 map idx) 3 && has_bit map (2 ^ pick_channel 3 map idx))

table0 : holds_below 256 (found 0) ≡ true
unfolding holds_below pick_channel
table0 = refl

table1 : holds_below 256 (found 1) ≡ true
unfolding holds_below pick_channel
table1 = refl

table2 : holds_below 256 (found 2) ≡ true
unfolding holds_below pick_channel
table2 = refl

found_at : (idx map : ℕ) → idx < 3 → map < 256 → found idx map ≡ true
found_at zero map h k = holds_below_at 256 (found 0) map table0 k
found_at (suc zero) map h k = holds_below_at 256 (found 1) map table1 k
found_at (suc (suc zero)) map h k = holds_below_at 256 (found 2) map table2 k
found_at (suc (suc (suc idx))) map h k = absurd (omega arith)

-- A map of one byte with one of the three advertising channels: the loop finds one of the three that
-- is in the map.
pub pick_channel_lem :
    (idx map : ℕ)
    → idx < 3
    → map < 256
    → bit_and map 7 ≢ 0
    → (pick_channel 3 map idx < 3) × (has_bit map (2 ^ pick_channel 3 map idx) ≡ true)
pick_channel_lem idx map h k some_channel =
    let all = found_at idx map h k in
    let both : (ltb (pick_channel 3 map idx) 3 && has_bit map (2 ^ pick_channel 3 map idx)) ≡ true =
      ground arith in
    let (below, holds) = &&-eq_true (ltb (pick_channel 3 map idx) 3) _ both in (ground arith, holds)

-- The sizes of the arrays that advertising uses.
pub record CanAdvertise (b : Ble) : Type 0 where
  pub tx_buf : length b.tx_buf ≡ 257
  pub own_addr : length b.own_addr ≡ 6
  pub adv_data : length b.adv_data ≡ 31
  pub adv_data_len : b.adv_data_len ≤ 31

-- The peer of directed advertising, which `gap_adv_start` asks for.
abbrev pub HasPeer : AdvType → Option (List ℕ) → Type 0
HasPeer connectable_directed none = ⊥
HasPeer connectable_directed (some peer) = length peer ≡ 6
HasPeer _ peer = Unit {0}

-- The PDU that the type of advertising stands for.
abbrev pub pdu_for : AdvType → Option (List ℕ) → List ℕ → List ℕ → AdvPdu
pdu_for connectable_directed (some peer) addr payload = adv_direct_ind addr peer
pdu_for connectable_directed none addr payload = adv_ind addr payload
pdu_for connectable_undirected peer addr payload = adv_ind addr payload
pdu_for scannable_undirected peer addr payload = adv_scan_ind addr payload
pdu_for non_connectable_undirected peer addr payload = adv_nonconn_ind addr payload

small :
    (kind : AdvType) (peer : Option (List ℕ)) (addr payload : List ℕ)
    → HasPeer kind peer
    → length addr ≡ 6
    → length payload ≤ 31
    → HasSizes (pdu_for kind peer addr payload)
      × IsDistinct (pdu_for kind peer addr payload)
      × (length (layout (pdu_for kind peer addr payload)) ≤ 63)
      × (arrives (pdu_for kind peer addr payload) ≡ pdu_for kind peer addr payload)
small connectable_directed (some peer) addr payload h size few =
    ((size, h), tt, omega (arith, length-append addr peer), refl)
small connectable_directed none addr payload h size few = absurd h
small connectable_undirected peer addr payload h size few =
    (size, tt, omega (arith, length-append addr payload), refl)
small scannable_undirected peer addr payload h size few =
    (size, tt, omega (arith, length-append addr payload), refl)
small non_connectable_undirected peer addr payload h size few =
    (size, tt, omega (arith, length-append addr payload), refl)

adv_pdu_lem :
    (kind : AdvType) (peer : Option (List ℕ)) (b : Ble) (payload : List ℕ)
    → HasPeer kind peer
    → b.adv_params.peer_addr ≡ peer
    → front {E = Blocked} b.adv_data b.adv_data_len ≡ ok payload
    → adv_pdu kind b ≡ ok (pdu_for kind peer b.own_addr payload)
unfolding adv_pdu
adv_pdu_lem connectable_directed (some peer) b payload h e part = simp e refl
adv_pdu_lem connectable_directed none b payload h e part = absurd h
adv_pdu_lem connectable_undirected peer b payload h e part = simp part refl
adv_pdu_lem scannable_undirected peer b payload h e part = simp part refl
adv_pdu_lem non_connectable_undirected peer b payload h e part = simp part refl

-- For every type of advertising, with a peer for the directed one, and with arrays of their sizes,
-- `build_adv_pdu` does not panic: the front of the transmit buffer is then a packet that is decoded to
-- the PDU of the type, with our own address and our advertising data. Only the buffer and the length
-- change.
pub build_adv_pdu-decode :
    (b : Ble)
    → CanAdvertise b
    → HasPeer b.adv_params.adv_type b.adv_params.peer_addr
    → (sent : List ℕ) × (buf : List ℕ) × (build_adv_pdu b
        ≡ ok (record b { tx_buf = buf; tx_pdu_len = length sent }))
      × (front {E = Blocked} buf (length sent) ≡ ok sent)
      × (decode sent
          ≡ ok (
              pdu_for b.adv_params.adv_type b.adv_params.peer_addr b.own_addr
                (take b.adv_data_len b.adv_data)))
unfolding build_adv_pdu
build_adv_pdu-decode b h peer =
    let kind = b.adv_params.adv_type in
    let addr = h.own_addr in
    let room = h.tx_buf in
    let n = h.adv_data in
    let m = h.adv_data_len in
    let len = b.adv_data_len in
    let payload = take len b.adv_data in
    let same_len : len - 0 ≡ len = omega arith in
    let part : front {E = Blocked} b.adv_data len ≡ ok payload =
      rw (le→leb 0 len (omega arith), le→leb len (length b.adv_data) (omega arith))
        (ap (λ (k : ℕ). ok (take k b.adv_data)) same_len) in
    let size = length-take len b.adv_data in
    let pdu = pdu_for kind b.adv_params.peer_addr b.own_addr payload in
    let (sizes, distinct, fits, same) =
      small kind b.adv_params.peer_addr b.own_addr payload peer addr (omega arith) in
    let (sent, encodes, decodes) =
      decode-encode_typed pdu b.tx_buf (is_random b.own_addr_type) false sizes distinct fits
        (omega arith) in
    let built = adv_pdu_lem kind b.adv_params.peer_addr b payload peer refl part in
    (
      sent,
      sent ++ drop (length sent) b.tx_buf,
      simp (built, encodes) refl,
      slice_prefix sent (drop (length sent) b.tx_buf) (length sent) refl,
      decodes ∙ ap ok same,
    )

-- The channel of an index, and the radio that is set to it.
tune_at :
    (ch : ℕ) (r : Radio)
    → ch < 3
    → (f : ℕ) × (iv : ℕ) × (index {E = Blocked} adv_channels ch ≡ ok (37 + ch))
      × (channel_frequency (37 + ch) ≡ ok (2400 + f))
      × (tune (37 + ch) r ≡ record r { frequency = f; datawhiteiv = iv })
unfolding channel_frequency set_channel
tune_at zero r h = (_, _, refl, refl, refl)
tune_at (suc zero) r h = (_, _, refl, refl, refl)
tune_at (suc (suc zero)) r h = (_, _, refl, refl, refl)
tune_at (suc (suc (suc ch))) r h = absurd (omega arith)

-- The packet of an event without a window behind it.
advertise_lem :
    (b : Ble) (channel : ℕ)
    → b.adv_params.extended ≡ false
    → b.adv_params.adv_type ≡ non_connectable_undirected
    → CanAdvertise b
    → (sent : List ℕ) × (buf : List ℕ) × (advertise channel b
        ≡ ok (record b { tx_buf = buf; tx_pdu_len = length sent; io = Io.transmit sent b.io }))
      × (decode sent ≡ ok (adv_nonconn_ind b.own_addr (take b.adv_data_len b.adv_data)))
unfolding advertise
advertise_lem b channel legacy kind h =
    let peer = b.adv_params.peer_addr in
    let (sent, buf, builds, part, decodes) =
      build_adv_pdu-decode b h (subst (λ k. HasPeer k peer) (sym kind) tt) in
    (
      sent,
      buf,
      simp (legacy, builds, part, kind) refl,
      decodes ∙ ap (λ k. ok (pdu_for k peer b.own_addr (take b.adv_data_len b.adv_data))) kind,
    )

schedule_lem :
    (b : Ble) (t : ℕ) (later : List ℕ)
    → b.io.timer.readings ≡ t ∷ later
    → (b' : Ble) × (schedule b ≡ ok b')
      × (b'.io.radio ≡ b.io.radio)
      × (b'.adv_channel_idx ≡ b.adv_channel_idx)
      × (b'.adv_state ≡ b.adv_state)
      × (b'.io.timer.compare ≡ (t + (next b.adv_accum b.adv_params.interval_min).0) % 2 ^ 32)
      × (b'.adv_accum ≡ (next b.adv_accum b.adv_params.interval_min).1)
unfolding schedule now set_compare
schedule_lem b t later reading =
    let (ticks, accum) = next b.adv_accum b.adv_params.interval_min in
    let timer : BtTimer = record (b.io.timer) {
      readings = later;
      compare = (t + ticks) % 2 ^ 32;
    } in
    (
      record b { adv_accum = accum; io = record (b.io) { timer = timer } },
      simp reading refl,
      refl,
      refl,
      refl,
      refl,
      refl,
    )

-- Advertising that is running, legacy and neither connectable nor scannable, on arrays of their sizes
-- and with a channel in the map; the timer can be read. Then `adv_tick` transmits one packet: on the
-- frequency of an advertising channel that is in the map, and decoded to the PDU with our own address
-- and data. It goes on from the channel behind that one, keeps running, and sets the
-- compare value to the timer's reading and the ticks of the next interval, modulo 2 ^ 32; the
-- accumulator of the interval goes on.
pub adv_tick-sends :
    (b : Ble) (t : ℕ) (later : List ℕ)
    → b.adv_state ≡ running
    → b.adv_params.extended ≡ false
    → b.adv_params.adv_type ≡ non_connectable_undirected
    → CanAdvertise b
    → b.adv_channel_idx < 3
    → b.adv_params.channel_map < 256
    → bit_and b.adv_params.channel_map 7 ≢ 0
    → b.io.timer.readings ≡ t ∷ later
    → (ch : ℕ) × (sent : Sent) × (b' : Ble) × (adv_tick b ≡ ok b')
      × (b'.io.radio.air ≡ sent ∷ b.io.radio.air)
      × (decode sent.packet ≡ ok (adv_nonconn_ind b.own_addr (take b.adv_data_len b.adv_data)))
      × (has_bit b.adv_params.channel_map (2 ^ ch) ≡ true)
      × (channel_frequency (37 + ch) ≡ ok (2400 + sent.frequency))
      × (b'.adv_channel_idx ≡ (ch + 1) % 3)
      × (b'.adv_state ≡ running)
      × (b'.io.timer.compare ≡ (t + (next b.adv_accum b.adv_params.interval_min).0) % 2 ^ 32)
      × (b'.adv_accum ≡ (next b.adv_accum b.adv_params.interval_min).1)
unfolding adv_tick tick_running Io.transmit Radio.transmit
adv_tick-sends b t later runs legacy kind h idx byte some_channel reading =
    let map = b.adv_params.channel_map in
    let start = b.adv_channel_idx in
    let ch = pick_channel 3 map start in
    let (below, in_map) = pick_channel_lem start map idx byte some_channel in
    let (f, iv, at, freq, tunes) = tune_at ch b.io.radio below in
    let (first, first_at) = index-ok {E = Blocked} adv_channels start idx in
    let b1 : Ble = record b {
      adv_channel_idx = (ch + 1) % 3;
      io = Io.set_channel (37 + ch) b.io;
    } in
    let sizes : CanAdvertise b1 = record {
      tx_buf = h.tx_buf;
      own_addr = h.own_addr;
      adv_data = h.adv_data;
      adv_data_len = h.adv_data_len;
    } in
    let (packet, buf, sends, decodes) = advertise_lem b1 (37 + ch) legacy kind sizes in
    let b2 : Ble = record b1 {
      tx_buf = buf;
      tx_pdu_len = length packet;
      io = Io.transmit packet b1.io;
    } in
    let (b3, timed, radio, goes_on, still, due, accum) = schedule_lem b2 t later reading in
    let sent : Sent = record { frequency = f; datawhiteiv = iv; packet = packet } in
    (
      ch,
      sent,
      b3,
      ap (λ s. tick_in s b) runs ∙ simp (first_at, at, sends) timed,
      ap (λ r. r.air) radio
          ∙ ap
              (λ r.
                let on_air : Sent = record {
                  frequency = Radio.frequency r;
                  datawhiteiv = Radio.datawhiteiv r;
                  packet = packet;
                } in
                on_air ∷ Radio.air r)
              tunes,
      decodes,
      in_map,
      freq,
      goes_on,
      still ∙ runs,
      due,
      accum,
    )
