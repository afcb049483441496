-- ===== src/Hw/Ble.antt =====
-- The scheduler: `Ble` of src/hw/ble.rs, its parameters and its events.
pub mod Events
pub mod Forever
pub mod Calls
pub mod Gap
pub mod Advertise
pub mod Scan
pub mod Link
use nrf_ble.Base.{ℕ, List, replicate, Bool, false, Option, none, some}
use nrf_ble.Base.Results.{Result, ok, err, panic, Error, lift, ◌>>=◌, slice, copy_to}
use nrf_ble.Ll.Addr.{AddrType, public}
use nrf_ble.Ll.AcceptList
use nrf_ble.Ll.AcceptList.{AcceptList}
use nrf_ble.Ll.Pdu.Fields.{ConnectReqData}
use nrf_ble.Hw.Conn.Control.{DisconnectReason}
use nrf_ble.Hw.Conn.State.{Conn}
use nrf_ble.Hw.Io.{Io}
use nrf_ble.Hw.Queue
use nrf_ble.Hw.Queue.{Queue, ble_queue_len}
use nrf_ble.Hw.Radio
use nrf_ble.Hw.Timers
use nrf_ble.Hw.Timers.{IntervalAccum, PeriodicSync}

abbrev pub rx_pdu_max : ℕ
rx_pdu_max = 257

abbrev pub legacy_ad_data_max_len : ℕ
legacy_ad_data_max_len = 31

abbrev pub scan_req_window_micros : ℕ
scan_req_window_micros = 300

abbrev pub connect_req_window_micros : ℕ
connect_req_window_micros = 90000

pub data AdvType : Type 0 where
  connectable_undirected connectable_directed scannable_undirected : AdvType
  non_connectable_undirected : AdvType

pub data FilterPolicy : Type 0 where
  accept_all accept_list : FilterPolicy

pub record AdvParams : Type 0 where
  pub interval_min : ℕ
  pub interval_max : ℕ
  pub adv_type : AdvType
  pub own_addr_type : AddrType
  pub peer_addr : Option (List ℕ)
  pub channel_map : ℕ
  pub extended : Bool
  pub periodic : Bool
  pub periodic_interval : ℕ

abbrev pub default_adv_params : AdvParams
default_adv_params = record {
  interval_min = 160;
  interval_max = 160;
  adv_type = connectable_undirected;
  own_addr_type = public;
  peer_addr = none;
  channel_map = 7;
  extended = false;
  periodic = false;
  periodic_interval = 100;
}

pub record ScanParams : Type 0 where
  pub active : Bool
  pub interval : ℕ
  pub window : ℕ
  pub own_addr_type : AddrType
  pub filter_policy : FilterPolicy

abbrev pub default_scan_params : ScanParams
default_scan_params = record {
  active = false;
  interval = 80;
  window = 40;
  own_addr_type = public;
  filter_policy = accept_all;
}

-- `report` has 31 bytes, of which `report_len` are valid.
pub record Report : Type 0 where
  pub addr : List ℕ
  pub addr_type : AddrType
  pub adv_type : ℕ
  pub rssi : ℕ
  pub report : List ℕ
  pub report_len : ℕ

pub data BleEvent : Type 0 where
  adv_started adv_stopped scan_started scan_stopped conn_data : BleEvent
  scan_req_received : (addr : List ℕ) → BleEvent
  connect_req_received : (init_addr : List ℕ) (conn : ConnectReqData) → BleEvent
  connected : ConnectReqData → BleEvent
  disconnected : DisconnectReason → BleEvent
  ll_control l2cap : ℕ → BleEvent
  periodic_adv : (adi : ℕ × ℕ) (rssi : ℕ) → BleEvent
  periodic_synced : (channel interval : ℕ) → BleEvent
  scan_report : Report → BleEvent

-- `AdvState` and `ScanState`, which have the same variants.
pub data RunState : Type 0 where
  idle running stop_pending : RunState

-- `tx_buf` and `rx_buf` have `rx_pdu_max` elements, `adv_data` and `scan_rsp`
-- `legacy_ad_data_max_len`.
pub record Ble : Type 0 where
  pub io : Io
  pub adv_accum : IntervalAccum
  pub scan_accum : IntervalAccum
  pub adv_state : RunState
  pub scan_state : RunState
  pub adv_params : AdvParams
  pub scan_params : ScanParams
  pub adv_data : List ℕ
  pub adv_data_len : ℕ
  pub scan_rsp : List ℕ
  pub scan_rsp_len : ℕ
  pub own_addr : List ℕ
  pub own_addr_type : AddrType
  pub adv_channel_idx : ℕ
  pub scan_channel_idx : ℕ
  pub scan_cycle_start : ℕ
  pub conn : Option Conn
  pub connect_target : Option (List ℕ)
  pub connect_target_type : AddrType
  pub last_radio_channel : Option ℕ
  pub devices : AcceptList
  pub irk : Option (List ℕ)
  pub periodic_sync : Option PeriodicSync
  pub tx_buf : List ℕ
  pub tx_pdu_len : ℕ
  pub rx_buf : List ℕ
  pub rx_pdu_len : ℕ
  pub events : Queue BleEvent

-- On peripherals in any state; the timer's registers that `init` writes are not part of the model.
unfoldable pub new : Io → Ble
new io = record {
  io = record io { radio = Radio.init io.radio };
  adv_accum = Timers.new;
  scan_accum = Timers.new;
  adv_state = idle;
  scan_state = idle;
  adv_params = default_adv_params;
  scan_params = default_scan_params;
  adv_data = replicate legacy_ad_data_max_len 0;
  adv_data_len = 0;
  scan_rsp = replicate legacy_ad_data_max_len 0;
  scan_rsp_len = 0;
  own_addr = replicate 6 0;
  own_addr_type = public;
  adv_channel_idx = 0;
  scan_channel_idx = 0;
  scan_cycle_start = 0;
  conn = none;
  connect_target = none;
  connect_target_type = public;
  last_radio_channel = none;
  devices = AcceptList.empty;
  irk = none;
  periodic_sync = none;
  tx_buf = replicate rx_pdu_max 0;
  tx_pdu_len = 0;
  rx_buf = replicate rx_pdu_max 0;
  rx_pdu_len = 0;
  events = Queue.empty ble_queue_len;
}

unfoldable pub push : {E : Type 0} → BleEvent → Ble → Result E Ble
push evt b = do
  events ← lift (Queue.push_event ble_queue_len b.events evt)
  ok (record b { events = events })

unfoldable pub next_event : Ble → Result ⊥ (Option BleEvent × Ble)
next_event b = do
  (evt, events) ← Queue.next_event ble_queue_len b.events
  ok (evt, record b { events = events })

-- `xs[..len]`, of an array and its length.
abbrev pub front : {E : Type 0} → List ℕ → ℕ → Result E (List ℕ)
front xs len = slice xs 0 len

-- `Result::unwrap`
abbrev pub unwrapped {ℓ} : {E : Type 0} {A : Type ℓ} → Result Error A → Result E A
unwrapped (ok a) = ok a
unwrapped (err e) = panic
unwrapped panic = panic
