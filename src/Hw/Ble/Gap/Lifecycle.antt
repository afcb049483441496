-- ===== src/Hw/Ble/Gap/Lifecycle.antt =====
-- When advertising starts, and how it stops.
use nrf_ble.Base.{
  ℕ, ◌+◌, ◌%◌, ◌^◌, ◌≤◌, ◌<◌, ◌≡◌, ◌≢◌, refl, ap, ◌∙◌, arith, if◌then◌else◌, bit_and, List, [], ◌∷◌,
  ◌++◌, length, length-append, true, false, Bool-cases, inl, inr, ◌⊎◌,
}
use nrf_ble.Base.Results.{ok, err, Error, invalid_param, already_running, not_running}
use nrf_ble.Hw.Ble.{
  Ble, AdvParams, adv_started, adv_stopped, RunState, idle, running, stop_pending, BleEvent,
}
use nrf_ble.Hw.Ble.Advertise.{adv_tick}
use nrf_ble.Hw.Ble.Events.{Pending, push-ok}
use nrf_ble.Hw.Ble.Gap.{
  gap_adv_start, start_adv, gap_adv_stop, valid_adv, lacks_peer, is_idle, fails, stop_from,
}
use nrf_ble.Hw.Io.{Io, Blocked, now, set_compare}
use nrf_ble.Hw.Timers
use nrf_ble.Hw.Timers.{next}

-- Parameters that advertising can start with: an interval of 20 ms to 10.24 s, a channel, and a peer
-- for directed advertising.
pub record IsValid (params : AdvParams) : Type 0 where
  pub least : 32 ≤ params.interval_min
  pub most : params.interval_min ≤ 16384
  pub ordered : params.interval_min ≤ params.interval_max
  pub some_channel : bit_and params.channel_map 7 ≢ 0
  pub peer : lacks_peer params.adv_type params.peer_addr ≡ false

valid_adv-IsValid : (params : AdvParams) → IsValid params → valid_adv params ≡ true
valid_adv-IsValid params v =
    let a = v.least in
    let b = v.most in let c = v.ordered in let d = v.some_channel in let e = v.peer in ground arith

pub IsValid-valid_adv : (params : AdvParams) → valid_adv params ≡ true → IsValid params
IsValid-valid_adv params h = record {
  least = ground arith;
  most = ground arith;
  ordered = ground arith;
  some_channel = λ e. ground arith;
  peer = ground arith;
}

is_idle-eq : (s : RunState) → is_idle s ≡ true → s ≡ idle
is_idle-eq idle h = refl
is_idle-eq running h = cc
is_idle-eq stop_pending h = cc

-- Starting with checked parameters.
start_adv_lem :
    (params : AdvParams) (b : Ble) (t : ℕ) (io : Io) (xs : List BleEvent)
    → now b.io ≡ ok (t, io)
    → Pending b xs
    → length xs + 1 < 8
    → (b' : Ble) × (start_adv params b ≡ ok (ok tt, b'))
      × (b'.adv_state ≡ running)
      × (b'.adv_params ≡ params)
      × Pending b' (xs ++ adv_started ∷ [])
      × (b'.io ≡ set_compare ((t + (next Timers.new params.interval_min).0) % 2 ^ 32) io)
unfolding start_adv
start_adv_lem params b t io xs reading h room =
    let (ticks, accum) = next Timers.new params.interval_min in
    let b1 : Ble = record b {
      adv_params = params;
      own_addr_type = params.own_addr_type;
      adv_channel_idx = 0;
      adv_accum = accum;
      io = set_compare ((t + ticks) % 2 ^ 32) io;
      adv_state = running;
    } in
    let (q, pushed, held) = push-ok {E = Blocked} b1 xs adv_started h room in
    (record b1 { events = q }, rw (reading, pushed) refl, refl, refl, held, refl)

-- A stack that does not advertise, on a queue with room for two events besides the free slot, starts
-- with valid parameters. Then `gap_adv_stop` asks it to stop, which can be repeated, and the next
-- `adv_tick` stops it and transmits nothing. The two events are queued in this order; afterwards it
-- cannot be stopped again.
pub gap_adv_start-stops :
    (params : AdvParams) (b : Ble) (t : ℕ) (io : Io) (xs : List BleEvent)
    → b.adv_state ≡ idle
    → IsValid params
    → now b.io ≡ ok (t, io)
    → Pending b xs
    → length xs + 2 < 8
    → (b1 b2 b3 : Ble) × (gap_adv_start params b ≡ ok (ok tt, b1))
      × (b1.adv_state ≡ running)
      × (gap_adv_stop b1 ≡ (ok tt, b2))
      × (gap_adv_stop b2 ≡ (ok tt, b2))
      × (adv_tick b2 ≡ ok b3)
      × (b3.io.radio.air ≡ io.radio.air)
      × Pending b3 (xs ++ adv_started ∷ [] ++ adv_stopped ∷ [])
      × (gap_adv_stop b3 ≡ (err not_running, b3))
unfolding gap_adv_start gap_adv_stop adv_tick set_compare
gap_adv_start-stops params b t io xs at_rest v reading h room =
    let (b1, starts, runs, same, held, times) =
      start_adv_lem params b t io xs reading h (omega arith) in
    let b2 : Ble = record b1 { adv_state = stop_pending } in
    let b2' : Ble = record b1 { adv_state = idle } in
    let size = length-append xs (adv_started ∷ []) in
    let (q, pushed, held') =
      push-ok {E = Blocked} b2' (xs ++ adv_started ∷ []) adv_stopped held (omega arith) in
    let b3 : Ble = record b2' { events = q } in
    (
      b1,
      b2,
      b3,
      ap
            (λ s.
              if is_idle s
              then (if valid_adv params then start_adv params b else fails invalid_param b)
              else fails already_running b)
            at_rest
          ∙ rw (valid_adv-IsValid params v) starts,
      runs,
      ap (stop_from b1) runs,
      refl,
      pushed,
      ap (λ i. i.radio.air) times,
      held',
      refl,
    )

-- While it advertises, or with parameters that are not valid, `gap_adv_start` is an error, and
-- nothing changes.
pub gap_adv_start-rejects :
    (params : AdvParams) (b : Ble)
    → (b.adv_state ≢ idle) ⊎ (¬ IsValid params)
    → (e : Error) × (gap_adv_start params b ≡ ok (err e, b))
unfolding gap_adv_start
gap_adv_start-rejects params b h = elim (Bool-cases (is_idle b.adv_state)) [
  | inr busy ↦ (already_running, rw busy refl)
  | inl free ↦ elim (Bool-cases (valid_adv params)) [
    | inr wrong ↦ (invalid_param, rw (free, wrong) refl)
    | inl right ↦ elim h [
      | inl busy ↦ absurd (busy (is_idle-eq b.adv_state free))
      | inr wrong ↦ absurd (wrong (IsValid-valid_adv params right))
    ]
  ]
]
