-- ===== src/Hw/Ble/Scan.antt =====
-- Scanning and connecting: `scan_tick` of src/hw/ble.rs and the methods that it calls.
pub mod Filter
pub mod Periodic
use nrf_ble.Base.{
  ℕ, ◌+◌, ◌/◌, ◌%◌, ◌^◌, min, bit_xor, ltb, leb, ◌==◌, bytes_eq, if◌then◌else◌, List, [], ◌∷◌,
  length, replicate, Bool, true, false, not, ◌&&◌, Option, none, some,
}
use nrf_ble.Base.Results.{Result, ok, err, panic, Error, lift, ◌>>=◌, index, slice, copy_to}
use nrf_ble.Ll.AcceptList
use nrf_ble.Ll.Addr.{AddrType, BtAddr, parse, is_random}
use nrf_ble.Ll.Channels.{adv_channels}
use nrf_ble.Ll.Pdu.Adv.{
  AdvPdu, decode, adv_ind, scan_req, scan_rsp, connect_req, adv_scan_ind, adv_ext_ind,
  aux_adv_ext_ind, periodic_adv,
}
use nrf_ble.Ll.Pdu.Adv.Encode.{encode_typed}
use nrf_ble.Ll.Pdu.Fields.{
  AuxPtr, PeriodicAdvInfo, decode_periodic, ConnectReqData, encode_connect, connect_ll_data_len,
}
use nrf_ble.Ll.Pdu.Header.{pdu_adv_ind, pdu_adv_scan_ind, pdu_adv_ext_ind, pdu_scan_rsp}
use nrf_ble.Hw.Conn.State
use nrf_ble.Hw.Conn.State.{Conn, master, set_peer}
use nrf_ble.Hw.Ble.{
  Ble, FilterPolicy, accept_all, accept_list, BleEvent, connected, scan_stopped, scan_report,
  Report, RunState, idle, running, stop_pending, scan_req_window_micros, push, front,
}
use nrf_ble.Hw.Ble
use nrf_ble.Hw.Ble.Advertise.{transmit, listen, ext_ad_periodic}
use nrf_ble.Hw.Io
use nrf_ble.Hw.Io.{
  Io, Blocked, now, set_compare, deadline_in, pause, listen_spins, Heard, heard, timed_out, failed,
}
use nrf_ble.Hw.Radio
use nrf_ble.Hw.Radio.{Radio}
use nrf_ble.Hw.Timers.{PeriodicSync, next, next_interval, window_ticks, timeout_ticks}

-- `encode_typed` into `tx_buf`, and what is done with the length; an error ends the method.
abbrev pub encoded :
    Result Error (ℕ × List ℕ) → Ble → (ℕ → Ble → Result Blocked Ble) → Result Blocked Ble
encoded (ok (len, buf)) b f = f len (record b { tx_buf = buf })
encoded (err e) b f = ok b
encoded panic b f = panic

-- At most 31 bytes of data, in an array of 31.
abbrev pub report_bytes : List ℕ → Result Blocked (List ℕ × ℕ)
report_bytes payload = do
  let len = min (length payload) 31
  part ← slice payload 0 len
  report ← copy_to (replicate 31 0) 0 len part
  ok (report, len)

abbrev pub report_of : List ℕ → ℕ → ℕ → List ℕ × ℕ → Result Blocked BleEvent
report_of addr adv_type rssi (report, report_len) = do
  a ← lift (parse addr)
  ok (
      scan_report (record {
        addr = addr;
        addr_type = a.addr_type;
        adv_type = adv_type;
        rssi = rssi;
        report = report;
        report_len = report_len;
      }))

abbrev pub connect_params : ConnectReqData
connect_params = record {
  access_addr = bit_xor 0x8E89BED6 0x12345678;
  crc_init = 0x654321;
  win_size = 1;
  win_offset = 0;
  interval = 24;
  latency = 0;
  timeout = 2000;
  channel_map = 0xFF ∷ 0xFF ∷ 0xFF ∷ 0xFF ∷ 0x1F ∷ [];
  hop = 13;
  sca = 2;
}

-- `unwrap_or(37)`
abbrev pub channel_or_37 : Option ℕ → ℕ
channel_or_37 none = 37
channel_or_37 (some channel) = channel

-- The request, and the connection that it opens as the master.
abbrev pub request_connection : List ℕ → Result Error (ℕ × List ℕ) → Ble → Result Blocked Ble
request_connection target (ok (written, ll_data)) b =
    encoded
      (encode_typed (connect_req b.own_addr target ll_data) b.tx_buf (is_random b.own_addr_type)
        (is_random b.connect_target_type))
      b
      (λ len b. do
        b ← transmit len b
        (t, io) ← now b.io
        let c = State.new connect_params (channel_or_37 b.last_radio_channel) t master
        push (connected connect_params) (record b {
          io = io;
          connect_target = none;
          conn = some (set_peer target c);
          scan_state = idle;
        }))
request_connection target (err e) b = ok b
request_connection target panic b = panic

unfoldable pub send_connect_req : Ble → Result Blocked Ble
send_connect_req b = elim b.connect_target [
  | none ↦ ok b
  | some target ↦
      request_connection target (encode_connect connect_params (replicate connect_ll_data_len 0)) b
]

-- The periodic information of an auxiliary packet, from the packet's bytes.
abbrev pub synced : Option PeriodicAdvInfo → ℕ → Ble → Result Blocked Ble
synced none channel b = ok b
synced (some info) channel b = do
  (t, io) ← now b.io
  let (interval, sync) =
      next_interval (record { channel = channel; units = info.interval; frac = 0; next_event = t })
  push (Ble.periodic_synced channel info.interval) (record b {
    io = io;
    periodic_sync = some (record sync { next_event = (t + interval) % 2 ^ 32 });
  })

unfoldable pub handle_periodic_aux : ℕ → List ℕ → Ble → Result Blocked Ble
handle_periodic_aux channel payload b =
    if ltb (length payload) 15
    then ok b
    else (do part ← slice payload 10 15; info ← lift (decode_periodic part); synced info channel b)

-- The `if let` on a packet heard by `periodic_tick`.
abbrev pub periodic_of : Result Error AdvPdu → Ble → Result Blocked Ble
periodic_of (ok (periodic_adv mode adi)) b = push (Ble.periodic_adv adi b.io.radio.rssisample) b
periodic_of panic b = panic
periodic_of _ b = ok b

-- The loop of at most this many polls, into `rx_buf`.
abbrev pub listen_turns : ℕ → Ble → Result Blocked (Heard × Ble)
listen_turns limit b = do
  (h, buf, io) ← listen_spins limit b.rx_buf b.io
  ok (h, record b { rx_buf = buf; io = io })

abbrev pub periodic_heard : Heard → Ble → Result Blocked Ble
periodic_heard (heard len) b = do packet ← front b.rx_buf len; periodic_of (decode packet) b
periodic_heard timed_out b = ok b
periodic_heard failed b = ok b

-- With the synchronisation, if there is one.
abbrev pub periodic_due : Option PeriodicSync → Ble → Result Blocked Ble
periodic_due none b = ok b
periodic_due (some sync) b = do
  (t, io) ← now b.io
  if ltb t sync.next_event then ok (record b { io = io }) else (do
    let (delta, sync) = next_interval sync
    let sync : PeriodicSync = record sync { next_event = (sync.next_event + delta) % 2 ^ 32 }
    (h, b) ←
        listen_turns 40000
          (record b { io = Io.set_channel sync.channel io; periodic_sync = some sync })
    periodic_heard h b)

unfoldable pub periodic_tick : Ble → Result Blocked Ble
periodic_tick b = periodic_due b.periodic_sync b

-- What `follow_aux` returns: the data of an auxiliary packet, or `none`.
abbrev pub Followed : Type 0
Followed = Option (List ℕ × ℕ) × Ble

abbrev pub nothing_followed : Ble → Followed
nothing_followed b = (none, record b { io = Io.set_channel 37 b.io })

abbrev pub aux_of : Result Error AdvPdu → ℕ → ℕ → Ble → Result Blocked Followed
aux_of (ok (aux_adv_ext_ind adv_addr adi ext_type payload)) channel len b = do
  let n = min (length payload) 40
  part ← slice payload 0 n
  out ← copy_to (replicate 40 0) 0 n part
  let raw_len = min len 64
  raw ← front b.rx_buf raw_len
  b ← (if ext_type == ext_ad_periodic then handle_periodic_aux channel raw b else ok b)
  ok (some (out, n), b)
aux_of panic channel len b = panic
aux_of _ channel len b = ok (nothing_followed b)

abbrev pub aux_heard : Heard → ℕ → Ble → Result Blocked Followed
aux_heard (heard len) channel b = do
  packet ← front b.rx_buf len
  aux_of (decode packet) channel len b
aux_heard timed_out channel b = ok (nothing_followed b)
aux_heard failed channel b = ok (nothing_followed b)

-- On the channel of the pointer, if it is one.
abbrev pub follow_on : Result Error Radio → ℕ → Ble → Result Blocked Followed
follow_on (ok radio) channel b = do
  io ← pause (timeout_ticks 300) (record (b.io) { radio = radio })
  (h, b) ← listen_turns 200000 (record b { io = io })
  aux_heard h channel b
follow_on (err e) channel b = ok (none, b)
follow_on panic channel b = panic

unfoldable pub follow_aux : AuxPtr → Ble → Result Blocked Followed
follow_aux ptr b = follow_on (Radio.set_channel ptr.channel b.io.radio) ptr.channel b

abbrev pub scan_rsp_of : Result Error AdvPdu → Ble → Result Blocked Ble
scan_rsp_of (ok (scan_rsp adv_addr payload)) b = do
  bytes ← report_bytes payload
  evt ← report_of adv_addr pdu_scan_rsp b.io.radio.rssisample bytes
  push evt b
scan_rsp_of panic b = panic
scan_rsp_of _ b = ok b

abbrev pub scan_rsp_heard : Heard → Ble → Result Blocked Ble
scan_rsp_heard (heard len) b = do packet ← front b.rx_buf len; scan_rsp_of (decode packet) b
scan_rsp_heard timed_out b = ok b
scan_rsp_heard failed b = ok b

unfoldable pub listen_for_scan_rsp : Ble → Result Blocked Ble
listen_for_scan_rsp b = do
  (deadline, io) ← deadline_in (timeout_ticks scan_req_window_micros) b.io
  (h, b) ← listen deadline (record b { io = io })
  scan_rsp_heard h b

unfoldable pub respond_scan_req : Ble → Result Blocked Ble
respond_scan_req b = do
  adv_addr ← slice b.rx_buf 2 8
  a ← lift (parse adv_addr)
  encoded
      (encode_typed (scan_req b.own_addr adv_addr) b.tx_buf (is_random b.own_addr_type)
        (is_random a.addr_type))
      b (λ len b. do b ← transmit len b; listen_for_scan_rsp b)

abbrev pub filters : FilterPolicy → Bool
filters accept_all = false
filters accept_list = true

abbrev pub is_target : List ℕ → Option (List ℕ) → Bool
is_target addr none = false
is_target addr (some target) = bytes_eq addr target

-- Whether the filter lets the address pass; the list is asked only if there is one.
unfoldable pub passes : List ℕ → Ble → Result Blocked Bool
passes addr b =
    if filters b.scan_params.filter_policy
    then (do a ← lift (parse addr); lift (AcceptList.contains b.devices addr a.addr_type))
    else ok true

-- An advertising packet that a scanner reports, and answers if it scans actively.
unfoldable pub on_advertiser : List ℕ → List ℕ → ℕ → ℕ → Ble → Result Blocked Ble
on_advertiser addr payload adv_type rssi b =
    if is_target addr b.connect_target then send_connect_req b else (do
      pass ← passes addr b
      if not pass then ok b else (do
        bytes ← report_bytes payload
        evt ← report_of addr adv_type rssi bytes
        b ← push evt b
        if b.scan_params.active then respond_scan_req b else ok b))

abbrev pub report_followed : Option (List ℕ × ℕ) → List ℕ → ℕ → Ble → Result Blocked Ble
report_followed none addr rssi b = ok b
report_followed (some (aux_data, aux_len)) addr rssi b = do
  let len = min aux_len 31
  part ← slice aux_data 0 len
  report ← copy_to (replicate 31 0) 0 len part
  evt ← report_of addr pdu_adv_ext_ind rssi (report, len)
  push evt b

abbrev pub scanned : Result Error AdvPdu → ℕ → Ble → Result Blocked Ble
scanned (ok (adv_ind addr payload)) rssi b = on_advertiser addr payload pdu_adv_ind rssi b
scanned (ok (adv_scan_ind addr payload)) rssi b = on_advertiser addr payload pdu_adv_scan_ind rssi b
scanned (ok (adv_ext_ind addr mode adi ptr)) rssi b = do
  (followed, b) ← follow_aux ptr b
  report_followed followed addr rssi b
scanned panic rssi b = panic
scanned _ rssi b = ok b

unfoldable pub handle_scan_pdu : Ble → Result Blocked Ble
handle_scan_pdu b = do
  packet ← front b.rx_buf b.rx_pdu_len
  scanned (decode packet) b.io.radio.rssisample b

abbrev pub scan_heard : Heard → Ble → Result Blocked Ble
scan_heard (heard len) b = handle_scan_pdu (record b { rx_pdu_len = len })
scan_heard timed_out b = ok b
scan_heard failed b = ok b

-- The window on the next of the three channels.
unfoldable pub scan_channel : Ble → Result Blocked Ble
scan_channel b = do
  b ←
      (if b.scan_channel_idx == 0
        then (do (t, io) ← now b.io; ok (record b { io = io; scan_cycle_start = t }))
        else ok b)
  channel ← index adv_channels b.scan_channel_idx
  let io = Io.set_channel channel b.io
  (deadline, io) ← deadline_in (window_ticks b.scan_params.window / 3) io
  (h, b) ← listen deadline (record b {
    io = set_compare deadline io;
    scan_channel_idx = b.scan_channel_idx + 1;
    last_radio_channel = some channel;
  })
  scan_heard h b

-- Behind the third channel the compare is set for the next cycle.
abbrev pub next_cycle : Ble → Ble
next_cycle b =
    let (ticks, accum) = next b.scan_accum b.scan_params.interval in
    record b {
      scan_channel_idx = 0;
      scan_accum = accum;
      io = set_compare ((b.scan_cycle_start + ticks) % 2 ^ 32) b.io;
    }

-- Behind `periodic_tick`, for a scanner that is not idle.
abbrev pub scan_on : RunState → Ble → Result Blocked Ble
scan_on stop_pending b = push scan_stopped (record b { scan_state = idle })
scan_on _ b = if leb 3 b.scan_channel_idx then ok (next_cycle b) else scan_channel b

unfoldable pub scan_tick : Ble → Result Blocked Ble
scan_tick b = elim b.scan_state [
  | idle ↦ ok b
  | running ↦ do b ← periodic_tick b; scan_on b.scan_state b
  | stop_pending ↦ do b ← periodic_tick b; scan_on b.scan_state b
]
