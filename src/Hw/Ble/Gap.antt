-- ===== src/Hw/Ble/Gap.antt =====
-- The methods of `Ble` (src/hw/ble.rs) that configure, start and stop advertising, scanning and
-- connecting. A method that the source lets fail returns its result and the state.
pub mod Lifecycle
use nrf_ble.Base.{
  ℕ, ◌+◌, ◌%◌, ◌^◌, bit_and, ltb, ◌==◌, ◌||◌, if◌then◌else◌, List, length, Bool, true, false,
  Option, none, some,
}
use nrf_ble.Base.Results.{
  Result, ok, err, Error, invalid_length, invalid_param, already_running, not_running, lift, ◌>>=◌,
  copy_to,
}
use nrf_ble.Ll.AcceptList
use nrf_ble.Ll.Addr.{AddrType, random_private_resolvable}
use nrf_ble.Ll.Privacy.{generate_rpa}
use nrf_ble.Hw.Ble.{
  Ble, AdvType, connectable_directed, AdvParams, ScanParams, default_scan_params, adv_started,
  scan_started, RunState, idle, running, stop_pending, legacy_ad_data_max_len, push,
}
use nrf_ble.Hw.Io.{Blocked, now, set_compare, with_radio}
use nrf_ble.Hw.Radio
use nrf_ble.Hw.Radio.{TxPower}
use nrf_ble.Hw.Timers
use nrf_ble.Hw.Timers.{IntervalAccum, next}

-- What a method returns that can fail.
abbrev pub Fallible : Type 0
Fallible = Result Error (Unit {0}) × Ble

abbrev pub fails : Error → Ble → Result Blocked Fallible
fails e b = ok (err e, b)

abbrev pub is_idle : RunState → Bool
is_idle idle = true
is_idle running = false
is_idle stop_pending = false

unfoldable pub gap_address_set : List ℕ → AddrType → Ble → Ble
gap_address_set addr addr_type b = record b { own_addr = addr; own_addr_type = addr_type }

unfoldable pub gap_adv_set_configure : List ℕ → List ℕ → Ble → Result Blocked Fallible
gap_adv_set_configure payload scan_rsp_data b =
    if ltb legacy_ad_data_max_len (length payload)
      || ltb legacy_ad_data_max_len (length scan_rsp_data)
    then fails invalid_length b
    else (do
      adv_data ← copy_to b.adv_data 0 (length payload) payload
      scan_rsp ← copy_to b.scan_rsp 0 (length scan_rsp_data) scan_rsp_data
      ok (
        ok tt,
        record b {
          adv_data = adv_data;
          adv_data_len = length payload;
          scan_rsp = scan_rsp;
          scan_rsp_len = length scan_rsp_data;
        },
      ))

-- Directed advertising without a peer.
abbrev pub lacks_peer : AdvType → Option (List ℕ) → Bool
lacks_peer connectable_directed none = true
lacks_peer _ _ = false

abbrev pub valid_adv : AdvParams → Bool
valid_adv params =
    if ltb params.interval_min 32 || ltb 16384 params.interval_min
    then false
    else if ltb params.interval_max params.interval_min
    then false
    else if bit_and params.channel_map 7 == 0
    then false
    else if lacks_peer params.adv_type params.peer_addr
    then false
    else true

-- Advertising with checked parameters.
unfoldable pub start_adv : AdvParams → Ble → Result Blocked Fallible
start_adv params b =
    let (ticks, accum) = next Timers.new params.interval_min in
    (do
      (t, io) ← now b.io
      b ← push adv_started (record b {
        adv_params = params;
        own_addr_type = params.own_addr_type;
        adv_channel_idx = 0;
        adv_accum = accum;
        io = set_compare ((t + ticks) % 2 ^ 32) io;
        adv_state = running;
      })
      ok (ok tt, b))

unfoldable pub gap_adv_start : AdvParams → Ble → Result Blocked Fallible
gap_adv_start params b =
    if is_idle b.adv_state
    then (if valid_adv params then start_adv params b else fails invalid_param b)
    else fails already_running b

-- `gap_adv_stop` in this state.
abbrev pub stop_from : Ble → RunState → Fallible
stop_from b idle = (err not_running, b)
stop_from b running = (ok tt, record b { adv_state = stop_pending })
stop_from b stop_pending = (ok tt, b)

unfoldable pub gap_adv_stop : Ble → Fallible
gap_adv_stop b = stop_from b b.adv_state

abbrev pub valid_scan : ScanParams → Bool
valid_scan params =
    if ltb params.interval 4 || ltb 16384 params.interval
    then false
    else if ltb params.window 4 || ltb 16384 params.window
    then false
    else if ltb params.interval params.window
    then false
    else true

unfoldable pub start_scan : ScanParams → Ble → Result Blocked Fallible
start_scan params b =
    let (ticks, accum) = next Timers.new params.interval in
    (do
      (t, io) ← now b.io
      b ← push scan_started (record b {
        scan_params = params;
        own_addr_type = params.own_addr_type;
        scan_channel_idx = 0;
        scan_accum = accum;
        io = set_compare ((t + ticks) % 2 ^ 32) io;
        scan_state = running;
      })
      ok (ok tt, b))

unfoldable pub gap_scan_start : ScanParams → Ble → Result Blocked Fallible
gap_scan_start params b =
    if is_idle b.scan_state
    then (if valid_scan params then start_scan params b else fails invalid_param b)
    else fails already_running b

-- `gap_scan_stop` in this state.
abbrev pub stop_scan_from : Ble → RunState → Fallible
stop_scan_from b idle = (err not_running, b)
stop_scan_from b running = (ok tt, record b { scan_state = stop_pending })
stop_scan_from b stop_pending = (ok tt, b)

unfoldable pub gap_scan_stop : Ble → Fallible
gap_scan_stop b = stop_scan_from b b.scan_state

unfoldable pub gap_connect : List ℕ → AddrType → Ble → Result Blocked Fallible
gap_connect target target_type b =
    if is_idle b.scan_state
    then gap_scan_start (record default_scan_params { active = false; interval = 100; window = 90 })
        (record b { connect_target = some target; connect_target_type = target_type })
    else fails already_running b

unfoldable pub gap_accept_list_add : List ℕ → AddrType → Ble → Result ⊥ (Bool × Ble)
gap_accept_list_add addr addr_type b = do
  (devices, added) ← AcceptList.add b.devices addr addr_type
  ok (added, record b { devices = devices })

unfoldable pub gap_accept_list_clear : Ble → Ble
gap_accept_list_clear b = record b { devices = AcceptList.clear b.devices }

unfoldable pub gap_accept_list_len : Ble → ℕ
gap_accept_list_len b = b.devices.len

unfoldable pub gap_privacy_set : List ℕ → Ble → Ble
gap_privacy_set irk b = record b { irk = some irk }

unfoldable pub gap_tx_power_set : TxPower → Ble → Ble
gap_tx_power_set power b = record b { io = with_radio (Radio.set_tx_power power) b.io }

module _ (encrypt : List ℕ → List ℕ → List ℕ) where
  unfoldable pub gap_rotate_rpa : Ble → Result Blocked (Bool × Ble)
  gap_rotate_rpa b = rotate b.irk
    where
      rotate : Option (List ℕ) → Result Blocked (Bool × Ble)
      rotate none = ok (false, b)
      rotate (some irk) = do
        (t, io) ← now b.io
        rpa ← lift (generate_rpa encrypt irk (bit_and t 0x00FFFFFF))
        ok (true, record b { io = io; own_addr = rpa; own_addr_type = random_private_resolvable })
