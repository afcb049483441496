-- ===== src/Hw/Ble/Advertise.antt =====
-- Advertising: `adv_tick` of src/hw/ble.rs and the methods that it calls.
pub mod Channel
use nrf_ble.Base.{
  ℕ, zero, suc, ◌+◌, ◌%◌, ◌^◌, min, bit_and, ltb, leb, ◌==◌, if◌then◌else◌, List, [], ◌∷◌, ◌++◌,
  length, replicate, Bool, true, false, not, ◌&&◌, Option, none, some,
}
use nrf_ble.Base.Results.{Result, ok, err, panic, Error, lift, unwrap, ◌>>=◌, index, copy_to, put}
use nrf_ble.Ll.Addr.{AddrType, is_random}
use nrf_ble.Ll.Channels.{adv_channels}
use nrf_ble.Ll.Pdu.Adv.{
  AdvPdu, decode, adv_ind, adv_direct_ind, adv_nonconn_ind, scan_req, scan_rsp, connect_req,
  adv_scan_ind, adv_ext_ind, aux_adv_ext_ind, aux_adv_ext_ind_with_eh, periodic_adv,
}
use nrf_ble.Ll.Pdu.Adv.Encode.{encode_typed}
use nrf_ble.Ll.Pdu.Fields.{PeriodicAdvInfo, encode_periodic, ConnectReqData, decode_connect}
use nrf_ble.Ll.Pdu.Header.{has_bit, pdu_scan_req, pdu_connect_req}
use nrf_ble.Hw.Conn.State
use nrf_ble.Hw.Conn.State.{slave}
use nrf_ble.Hw.Ble.{
  Ble, AdvType, connectable_undirected, connectable_directed, scannable_undirected,
  non_connectable_undirected, BleEvent, adv_stopped, connected, connect_req_received, RunState,
  idle, running, stop_pending, scan_req_window_micros, connect_req_window_micros, push, front,
  unwrapped,
}
use nrf_ble.Hw.Io
use nrf_ble.Hw.Io.{
  Io, Blocked, now, set_compare, deadline_in, pause, listen_until, Heard, heard, timed_out, failed,
}
use nrf_ble.Hw.Timers.{next, timeout_ticks}

abbrev pub ext_ad_periodic : ℕ
ext_ad_periodic = 0x20

-- The PDU at the front of `tx_buf`, and its length.
abbrev pub encode_pdu : AdvPdu → Bool → Bool → Ble → Result Blocked (ℕ × Ble)
encode_pdu pdu tx_add rx_add b = do
  (len, buf) ← unwrapped (encode_typed pdu b.tx_buf tx_add rx_add)
  ok (len, record b { tx_buf = buf })

-- `self.radio.transmit(&self.tx_buf[..len])`
abbrev pub transmit : ℕ → Ble → Result Blocked Ble
transmit len b = do packet ← front b.tx_buf len; ok (record b { io = Io.transmit packet b.io })

unfoldable pub adv_pdu : AdvType → Ble → Result Blocked AdvPdu
adv_pdu connectable_directed b = do
  peer ← unwrap b.adv_params.peer_addr
  ok (adv_direct_ind b.own_addr peer)
adv_pdu connectable_undirected b = do
  payload ← front b.adv_data b.adv_data_len
  ok (adv_ind b.own_addr payload)
adv_pdu scannable_undirected b = do
  payload ← front b.adv_data b.adv_data_len
  ok (adv_scan_ind b.own_addr payload)
adv_pdu non_connectable_undirected b = do
  payload ← front b.adv_data b.adv_data_len
  ok (adv_nonconn_ind b.own_addr payload)

unfoldable pub build_adv_pdu : Ble → Result Blocked Ble
build_adv_pdu b = do
  pdu ← adv_pdu b.adv_params.adv_type b
  (len, b) ← encode_pdu pdu (is_random b.own_addr_type) false b
  ok (record b { tx_pdu_len = len })

abbrev pub ext_mode : AdvType → ℕ
ext_mode connectable_undirected = 1
ext_mode scannable_undirected = 2
ext_mode connectable_directed = 0
ext_mode non_connectable_undirected = 0

unfoldable pub build_ext_adv_pdu : Ble → Result Blocked Ble
build_ext_adv_pdu b = do
  let pdu : AdvPdu =
      adv_ext_ind b.own_addr (ext_mode b.adv_params.adv_type) (0, 0)
        (record { channel = 0; offset = 5; phy = 0 })
  (len, b) ← encode_pdu pdu (is_random b.own_addr_type) false b
  ok (record b { tx_pdu_len = len })

-- The wait before a packet on a data channel, the packet, and the return to channel 37.
abbrev pub transmit_later : ℕ → Ble → Result Blocked Ble
transmit_later len b = do
  io ← pause (timeout_ticks 200) b.io
  b ← transmit len (record b { io = Io.set_channel 0 io })
  ok (record b { io = Io.set_channel 37 b.io })

-- The auxiliary packet: with the periodic information in its extended header, or without.
abbrev pub aux_pdu : List ℕ → Ble → Result Blocked AdvPdu
aux_pdu payload b =
    if b.adv_params.periodic
    then (do
      let info : PeriodicAdvInfo = record {
        adi = (0, 0);
        interval = b.adv_params.periodic_interval;
        adva_type = if is_random b.own_addr_type then 1 else 0;
      }
      ehs ← put (replicate 40 0) 0 0
      ehs ← put ehs 1 ext_ad_periodic
      ehs ← copy_to ehs 2 7 (encode_periodic info)
      ehs ← front ehs 7
      ok (aux_adv_ext_ind_with_eh b.own_addr (0, 0) ehs payload))
    else ok (aux_adv_ext_ind b.own_addr (0, 0) 0 payload)

unfoldable pub transmit_aux_adv : Ble → Result Blocked Ble
transmit_aux_adv b = do
  let n = min b.adv_data_len 36
  part ← front b.adv_data n
  payload ← copy_to (replicate 36 0) 0 n part
  payload ← front payload n
  pdu ← aux_pdu payload b
  (len, b) ← encode_pdu pdu (is_random b.own_addr_type) false b
  transmit_later len b

unfoldable pub transmit_periodic_adv : Ble → Result Blocked Ble
transmit_periodic_adv b = do
  (len, b) ← encode_pdu (periodic_adv 0 (0, 0)) (is_random b.own_addr_type) false b
  transmit_later len b

-- `accept_mask & (1 << pdu_type) != 0`
abbrev pub accepts : ℕ → ℕ → Bool
accepts accept_mask pdu_type = has_bit accept_mask (2 ^ pdu_type)

abbrev pub accepted : ℕ → Heard → Ble → Result Blocked (Bool × Ble)
accepted accept_mask (heard len) b =
    let b : Ble = record b { rx_pdu_len = len } in
    if leb 2 len
    then (do first ← index b.rx_buf 0; ok (accepts accept_mask (bit_and first 0x0F), b))
    else ok (false, b)
accepted accept_mask timed_out b = ok (false, b)
accepted accept_mask failed b = ok (false, b)

-- The loop of polls up to a deadline, into `rx_buf`.
unfoldable pub listen : ℕ → Ble → Result Blocked (Heard × Ble)
listen deadline b = do
  (h, buf, io) ← listen_until deadline b.rx_buf b.io
  ok (h, record b { rx_buf = buf; io = io })

unfoldable pub radio_window : ℕ → ℕ → Ble → Result Blocked (Bool × Ble)
radio_window accept_mask window_micros b = do
  (deadline, io) ← deadline_in (timeout_ticks window_micros) b.io
  (h, b) ← listen deadline (record b { io = io })
  accepted accept_mask h b

-- The answer to a scan request, if there is data for one.
unfoldable pub respond : List ℕ → Ble → Result Blocked Ble
respond adv_addr b =
    if ltb 0 b.scan_rsp_len
    then (do
      payload ← front b.scan_rsp b.scan_rsp_len
      (len, b) ← encode_pdu (scan_rsp adv_addr payload) (is_random b.own_addr_type) false b
      transmit len b)
    else ok b

unfoldable pub listen_for_scan_req : Ble → Result Blocked Ble
listen_for_scan_req b = do
  (matches, b) ← radio_window (2 ^ pdu_scan_req) scan_req_window_micros b
  if matches then respond b.own_addr b else ok b

-- A connection as the slave, if the request's parameters can be decoded.
abbrev pub accept_connection : Result Error ConnectReqData → ℕ → List ℕ → Ble → Result Blocked Ble
accept_connection (ok params) channel init_addr b = do
  (t, io) ← now b.io
  b ←
      push (connected params)
        (record b { io = io; conn = some (State.new params channel t slave); adv_state = idle })
  push (connect_req_received init_addr params) b
accept_connection (err e) channel init_addr b = ok b
accept_connection panic channel init_addr b = panic

-- What an advertiser does with a request.
abbrev pub answer : Result Error AdvPdu → ℕ → Ble → Result Blocked Ble
answer (ok (scan_req scan_addr adv_addr)) channel b = respond adv_addr b
answer (ok (connect_req init_addr adv_addr ll_data)) channel b =
    accept_connection (decode_connect ll_data) channel init_addr b
answer panic channel b = panic
answer _ channel b = ok b

unfoldable pub listen_for_scan_and_connect : ℕ → Ble → Result Blocked Ble
listen_for_scan_and_connect channel b = do
  (matches, b) ← radio_window (2 ^ pdu_scan_req + 2 ^ pdu_connect_req) connect_req_window_micros b
  if matches
      then (do packet ← front b.rx_buf b.rx_pdu_len; answer (decode packet) channel b)
      else ok b

-- The loop of at most three turns that looks for a channel of the map.
unfoldable pub pick_channel : ℕ → ℕ → ℕ → ℕ
pick_channel zero channel_map ch_idx = ch_idx
pick_channel (suc turns) channel_map ch_idx =
    let rest = pick_channel turns channel_map ((ch_idx + 1) % 3) in
    if has_bit channel_map (2 ^ ch_idx) then ch_idx else rest

abbrev pub listen_after : AdvType → ℕ → Ble → Result Blocked Ble
listen_after connectable_undirected channel b = listen_for_scan_and_connect channel b
listen_after connectable_directed channel b = listen_for_scan_and_connect channel b
listen_after scannable_undirected channel b = listen_for_scan_req b
listen_after non_connectable_undirected channel b = ok b

-- One channel event: the packets, and the window to listen behind them.
unfoldable pub advertise : ℕ → Ble → Result Blocked Ble
advertise channel b =
    if b.adv_params.extended
    then (do
      b ← build_ext_adv_pdu b
      b ← transmit b.tx_pdu_len b
      b ← transmit_aux_adv b
      if b.adv_params.periodic then transmit_periodic_adv b else ok b)
    else (do
      b ← build_adv_pdu b
      b ← transmit b.tx_pdu_len b
      listen_after b.adv_params.adv_type channel b)

-- The compare value for the next event.
unfoldable pub schedule : Ble → Result Blocked Ble
schedule b =
    let (ticks, accum) = next b.adv_accum b.adv_params.interval_min in
    (do
      (t, io) ← now b.io
      ok (record b { adv_accum = accum; io = set_compare ((t + ticks) % 2 ^ 32) io }))

-- The tick of an advertiser that runs: the channel, its event, and the next compare value.
unfoldable pub tick_running : Ble → Result Blocked Ble
tick_running b = do
  let ch_idx = pick_channel 3 b.adv_params.channel_map b.adv_channel_idx
  first ← index adv_channels b.adv_channel_idx
  channel ← index adv_channels ch_idx
  b ←
      advertise channel
        (record b { adv_channel_idx = (ch_idx + 1) % 3; io = Io.set_channel channel b.io })
  schedule b

abbrev pub tick_in : RunState → Ble → Result Blocked Ble
tick_in idle b = ok b
tick_in stop_pending b = push adv_stopped (record b { adv_state = idle })
tick_in running b = tick_running b

unfoldable pub adv_tick : Ble → Result Blocked Ble
adv_tick b = tick_in b.adv_state b
