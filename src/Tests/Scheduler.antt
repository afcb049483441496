-- ===== src/Tests/Scheduler.antt =====
-- The scheduler at concrete states.
use nrf_ble.Base.{
  ℕ, ◌<◌, ◌*◌, ◌≤◌, ◌+◌, ◌%◌, ◌^◌, ◌≡◌, refl, arith, List, [], ◌∷◌, ◌++◌, length, drop, replicate,
  true, false, some, ◌⊎◌,
}
use nrf_ble.Base.Results.{◌>>=◌, Result, ok, err, panic, not_running}
use nrf_ble.Ll.AcceptList.{entries_of}
use nrf_ble.Ll.Addr.{public, is_random}
use nrf_ble.Ll.Channels.{channel_frequency}
use nrf_ble.Ll.Pdu.Adv.{AdvPdu, decode, adv_nonconn_ind}
use nrf_ble.Ll.Pdu.Adv.Encode.{encode_typed}
use nrf_ble.Ll.Pdu.Header.{has_bit}
use nrf_ble.Hw.Ble
use nrf_ble.Hw.Ble.{
  BleEvent, RunState, stop_pending, Ble, AdvParams, default_adv_params, default_scan_params,
  non_connectable_undirected, adv_started, adv_stopped, running, accept_list, rx_pdu_max,
}
use nrf_ble.Hw.Ble.Advertise.{adv_tick, aux_pdu}
use nrf_ble.Hw.Ble.Advertise.Channel.{CanAdvertise, adv_tick-sends}
use nrf_ble.Hw.Ble.Calls
use nrf_ble.Hw.Ble.Calls.{Call, AllTyped, none_left, and_then, IsSound, perform_all}
use nrf_ble.Hw.Ble.Calls.Kept.{new-IsSound, perform_all-IsSound}
use nrf_ble.Hw.Ble.Events.{Pending}
use nrf_ble.Hw.Ble.Forever.{watching, adv_forever, adv_forever-stops}
use nrf_ble.Hw.Ble.Gap.{gap_adv_start, gap_adv_stop}
use nrf_ble.Hw.Ble.Gap.Lifecycle.{IsValid, gap_adv_start-stops}
use nrf_ble.Hw.Ble.Link.{conn_tick, after_event, conn_rx_data}
use nrf_ble.Hw.Ble.Link.Outcomes.{conn_tick-stays, Open, data_news}
use nrf_ble.Hw.Ble.Link.Supervision.{Lost, conn_tick-supervision}
use nrf_ble.Hw.Ble.Scan.{handle_periodic_aux, on_advertiser}
use nrf_ble.Hw.Ble.Scan.Filter.{on_advertiser-public}
use nrf_ble.Hw.Ble.Scan.Periodic.{handle_periodic_aux-own}
use nrf_ble.Hw.Conn.Event.{
  event, Outcome, advance, prepare, event_slave, turns, turn, listen, finish,
}
use nrf_ble.Hw.Conn.State
use nrf_ble.Hw.Conn.State.{Conn, slave, idle}
use nrf_ble.Hw.Hop.{next_channel, next_used, has_channel}
use nrf_ble.Hw.Io.{Io, Blocked, blocked, now, deadline_in, set_compare, listen_until, listen_loop}
use nrf_ble.Hw.Queue.Laws.{empty-Holds}
use nrf_ble.Hw.Radio
use nrf_ble.Hw.Radio.{Sent, waiting, receive_poll}
use nrf_ble.Hw.Timers.{PeriodicSync, next, timeout_ticks, div_ceil_denom}
use nrf_ble.Tests.Radio.{io_with, encrypt, block, slave_link}

abbrev stack : List ℕ → Ble
stack readings = Ble.new (io_with readings [])

stack-Pending : (readings : List ℕ) → Pending (stack readings) []
unfolding Ble.new
stack-Pending readings = empty-Holds 8 (omega arith)

default_adv_params-IsValid : IsValid default_adv_params
default_adv_params-IsValid = record {
  least = omega arith;
  most = omega arith;
  ordered = omega arith;
  some_channel = λ e. omega arith;
  peer = refl;
}

gap_adv_start-stops_example :
    (b1 b2 b3 : Ble) × (gap_adv_start default_adv_params (stack (40 ∷ [])) ≡ ok (ok tt, b1))
    × (b1.adv_state ≡ running)
    × (gap_adv_stop b1 ≡ (ok tt, b2))
    × (gap_adv_stop b2 ≡ (ok tt, b2))
    × (adv_tick b2 ≡ ok b3)
    × (b3.io.radio.air ≡ (stack []).io.radio.air)
    × Pending b3 (adv_started ∷ adv_stopped ∷ [])
    × (gap_adv_stop b3 ≡ (err not_running, b3))
unfolding Ble.new now
gap_adv_start-stops_example =
    gap_adv_start-stops default_adv_params (stack (40 ∷ [])) 40 (stack []).io [] refl
      default_adv_params-IsValid refl (stack-Pending (40 ∷ [])) (omega arith)

abbrev beacon : Ble
beacon = record (stack (40 ∷ [])) {
  adv_state = running;
  adv_params = record default_adv_params { adv_type = non_connectable_undirected; channel_map = 4 };
  adv_data = 9 ∷ replicate 30 0;
  adv_data_len = 1;
}

beacon-CanAdvertise : CanAdvertise beacon
unfolding Ble.new
beacon-CanAdvertise = record {
  tx_buf = refl;
  own_addr = refl;
  adv_data = refl;
  adv_data_len = omega arith;
}

adv_tick-sends_example :
    (ch : ℕ) × (sent : Sent) × (b' : Ble) × (adv_tick beacon ≡ ok b')
    × (b'.io.radio.air ≡ sent ∷ beacon.io.radio.air)
    × (decode sent.packet ≡ ok (adv_nonconn_ind beacon.own_addr (9 ∷ [])))
    × (has_bit 4 (2 ^ ch) ≡ true)
    × (channel_frequency (37 + ch) ≡ ok (2400 + sent.frequency))
    × (b'.adv_channel_idx ≡ (ch + 1) % 3)
    × (b'.adv_state ≡ running)
    × (b'.io.timer.compare ≡ (40 + (next beacon.adv_accum 160).0) % 2 ^ 32)
    × (b'.adv_accum ≡ (next beacon.adv_accum 160).1)
unfolding Ble.new
adv_tick-sends_example =
    adv_tick-sends beacon 40 [] refl refl refl beacon-CanAdvertise (omega arith) (omega arith)
      (λ e. omega arith) refl

abbrev peer : List ℕ
peer = 1 ∷ 2 ∷ 3 ∷ 4 ∷ 5 ∷ 6 ∷ []

abbrev filtering : Ble
filtering = record (stack []) {
  scan_params = record default_scan_params { filter_policy = accept_list };
  devices = record { entries = record { addr_type = public; addr = peer } ∷ []; len = 1 };
}

on_advertiser-public_example : on_advertiser peer (7 ∷ []) 0 60 filtering ≡ ok filtering
unfolding Ble.new entries_of
on_advertiser-public_example =
    on_advertiser-public filtering peer (7 ∷ []) 0 60
      (record { addr_type = public; addr = peer } ∷ []) refl refl refl refl (refl, tt)

abbrev train : Ble
train = record (stack []) {
  adv_params = record default_adv_params { extended = true; periodic = true };
}

handle_periodic_aux-own_example :
    (pdu : AdvPdu) × (sent : List ℕ) × (aux_pdu (9 ∷ []) train ≡ ok pdu)
    × (encode_typed pdu train.tx_buf (is_random train.own_addr_type) false
        ≡ ok (length sent, sent ++ drop (length sent) train.tx_buf))
    × (s' : Ble) × (sync : PeriodicSync) × (handle_periodic_aux 38 sent (stack (40 ∷ [])) ≡ ok s')
    × Pending s' (Ble.periodic_synced 38 0 ∷ [])
    × (s'.periodic_sync ≡ some sync)
    × (sync.units ≡ 0)
unfolding Ble.new now
handle_periodic_aux-own_example =
    handle_periodic_aux-own train (9 ∷ []) (stack (40 ∷ [])) 38 40 (stack []).io [] refl refl
      (omega arith) refl refl (stack-Pending (40 ∷ [])) (omega arith)

abbrev linked : List ℕ → Ble
linked readings = record (stack readings) { conn = some slave_link }

-- A reading 5 ticks behind a packet that was heard just before the timer wrapped.
abbrev wrapped : Conn
wrapped = record slave_link { last_rx = 16777214 }

abbrev after_wrap : Ble
after_wrap = record (stack (3 ∷ [])) { conn = some wrapped }

conn_tick-supervision_example :
    (((wrapped.timeout * 313 ≤ 5) ⊎ (2 ^ 24 ≤ 16777214 + 5))
      × Lost encrypt block after_wrap (stack []).io [])
    ⊎ ((5 < wrapped.timeout * 313)
        × (16777214 + 5 < 2 ^ 24)
        × (conn_tick encrypt block after_wrap ≡ (do
          (result, c', io') ← event encrypt block wrapped (stack []).io
          after_event result (record after_wrap { conn = some c'; io = io' }))))
unfolding Ble.new now State.new
conn_tick-supervision_example =
    conn_tick-supervision encrypt block after_wrap wrapped (stack []).io 5 [] refl (omega arith)
      (omega arith) refl (omega arith) (stack-Pending (3 ∷ [])) (omega arith)

-- The link and the peripherals behind an event.
abbrev behind : Result Blocked Outcome → Conn × Io
behind (ok (result, c, io)) = (c, io)
behind (err e) = (slave_link, io_with [] [])
behind panic = (slave_link, io_with [] [])

abbrev quiet : Ble
quiet = record (stack []) {
  conn = some slave_link;
  io = io_with (5 ∷ 6 ∷ 1000 ∷ []) (waiting ∷ []);
}

abbrev at_event : Io
at_event = io_with (6 ∷ 1000 ∷ []) (waiting ∷ [])

abbrev outcome : Conn × Io
outcome = behind (event encrypt block slave_link at_event)

conn_tick-stays_example :
    (b' : Ble) × (conn_tick encrypt block quiet ≡ ok (true, b'))
    × Pending b' (data_news (outcome.0))
    × Open (outcome.0) b'
    × (conn_rx_data b' ≡ ok [])
unfolding Ble.new now State.new event advance next_channel next_used has_channel Radio.set_channel
    channel_frequency event_slave turns turn listen deadline_in listen_until listen_loop set_compare
    prepare Radio.set_crc_init Radio.set_access_address receive_poll finish next timeout_ticks
    div_ceil_denom
conn_tick-stays_example =
    conn_tick-stays encrypt block quiet slave_link (outcome.0) at_event (outcome.1) 5 idle [] refl
      refl (omega arith) refl refl (stack-Pending []) (omega arith)

abbrev calls : List Call
calls =
    Calls.gap_address_set peer public
    ∷ Calls.gap_adv_set_configure (9 ∷ []) []
    ∷ Calls.gap_adv_start default_adv_params
    ∷ Calls.gap_rotate_rpa
    ∷ Calls.gap_connect peer public
    ∷ Calls.gap_adv_stop
    ∷ Calls.next_event
    ∷ []

calls-AllTyped : AllTyped calls
calls-AllTyped =
    and_then refl (
      and_then tt (and_then tt (and_then tt (and_then refl (and_then tt (and_then tt none_left))))))

perform_all-IsSound_example :
    ((b' : Ble) × (perform_all encrypt calls (stack (40 ∷ 41 ∷ [])) ≡ ok b') × IsSound b')
    ⊎ (perform_all encrypt calls (stack (40 ∷ 41 ∷ [])) ≡ err blocked)
perform_all-IsSound_example =
    perform_all-IsSound encrypt (λ key xs h. h) calls (stack (40 ∷ 41 ∷ [])) calls-AllTyped
      (new-IsSound (io_with (40 ∷ 41 ∷ []) []))

abbrev stopping : Ble
stopping = record (stack []) {
  adv_state = stop_pending;
  io = record (io_with [] []) {
    timer = record { readings = []; compare = 0; compare_events = true ∷ [] };
  };
}

abbrev latest_first : BleEvent → List BleEvent → List BleEvent
latest_first evt s = evt ∷ s

adv_forever-stops_example :
    (b' : Ble) × (adv_forever (watching latest_first) 1 9 [] stopping ≡ ok (adv_stopped ∷ [], b'))
    × (b'.adv_state ≡ RunState.idle)
    × (b'.io.radio.air ≡ [])
    × Pending b' []
unfolding Ble.new
adv_forever-stops_example =
    adv_forever-stops latest_first [] stopping [] [] 0 9 refl refl (stack-Pending []) (omega arith)
      (omega arith)
