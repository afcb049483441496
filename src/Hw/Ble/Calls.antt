-- ===== src/Hw/Ble/Calls.antt =====
-- Sequences of calls that an application makes on `Ble` between the ticks.
pub mod Parts
pub mod Kept
use nrf_ble.Base.{ℕ, ◌≤◌, ◌<◌, ◌≡◌, ◌≢◌, List, [], ◌∷◌, length, Option}
use nrf_ble.Base.Results.{Result, ok, lift, ◌>>=◌}
use nrf_ble.Ll.AcceptList.Laws.{IsAcceptList}
use nrf_ble.Ll.Addr.{AddrType}
use nrf_ble.Hw.Ble
use nrf_ble.Hw.Ble.{Ble, BleEvent, AdvParams, ScanParams, RunState, idle}
use nrf_ble.Hw.Ble.Gap
use nrf_ble.Hw.Ble.Gap.{Fallible}
use nrf_ble.Hw.Ble.Gap.Lifecycle.{IsValid}
use nrf_ble.Hw.Io.{Blocked}
use nrf_ble.Hw.Queue.{Queue}
use nrf_ble.Hw.Radio.{TxPower}

-- The methods that change the state, with their arguments.
pub data Call : Type 0 where
  gap_address_set gap_accept_list_add gap_connect : List ℕ → AddrType → Call
  gap_adv_set_configure : List ℕ → List ℕ → Call
  gap_adv_start : AdvParams → Call
  gap_scan_start : ScanParams → Call
  gap_adv_stop gap_scan_stop gap_accept_list_clear gap_rotate_rpa next_event : Call
  gap_privacy_set : List ℕ → Call
  gap_tx_power_set : TxPower → Call

-- The arguments have the sizes that their types state.
abbrev pub IsTyped : Call → Type 0
IsTyped (gap_address_set addr addr_type) = length addr ≡ 6
IsTyped (gap_accept_list_add addr addr_type) = length addr ≡ 6
IsTyped (gap_connect target target_type) = length target ≡ 6
IsTyped (gap_adv_set_configure payload scan_rsp_data) = Unit {0}
IsTyped (gap_adv_start params) = Unit {0}
IsTyped (gap_scan_start params) = Unit {0}
IsTyped gap_adv_stop = Unit {0}
IsTyped gap_scan_stop = Unit {0}
IsTyped gap_accept_list_clear = Unit {0}
IsTyped gap_rotate_rpa = Unit {0}
IsTyped next_event = Unit {0}
IsTyped (gap_privacy_set irk) = length irk ≡ 16
IsTyped (gap_tx_power_set power) = Unit {0}

pub data AllTyped : List Call → Type 0 where
  none_left : AllTyped []
  and_then :
      {call : Call} {calls : List Call} → IsTyped call → AllTyped calls → AllTyped (call ∷ calls)

-- The state that a call leaves; its result is dropped.
abbrev pub after : {A : Type 0} → Result Blocked (A × Ble) → Result Blocked Ble
after call = do (_, b) ← call; ok b

module _ (encrypt : List ℕ → List ℕ → List ℕ) where
  abbrev pub perform : Call → Ble → Result Blocked Ble
  perform (gap_address_set addr addr_type) b = ok (Gap.gap_address_set addr addr_type b)
  perform (gap_accept_list_add addr addr_type) b =
      after (lift (Gap.gap_accept_list_add addr addr_type b))
  perform (gap_connect target target_type) b = after (Gap.gap_connect target target_type b)
  perform (gap_adv_set_configure payload scan_rsp_data) b =
      after (Gap.gap_adv_set_configure payload scan_rsp_data b)
  perform (gap_adv_start params) b = after (Gap.gap_adv_start params b)
  perform (gap_scan_start params) b = after (Gap.gap_scan_start params b)
  perform gap_adv_stop b = after (ok (Gap.gap_adv_stop b))
  perform gap_scan_stop b = after (ok (Gap.gap_scan_stop b))
  perform gap_accept_list_clear b = ok (Gap.gap_accept_list_clear b)
  perform gap_rotate_rpa b = after (Gap.gap_rotate_rpa encrypt b)
  perform next_event b = after (lift (Ble.next_event b))
  perform (gap_privacy_set irk) b = ok (Gap.gap_privacy_set irk b)
  perform (gap_tx_power_set power) b = ok (Gap.gap_tx_power_set power b)

  unfoldable pub perform_all : List Call → Ble → Result Blocked Ble
  perform_all [] b = ok b
  perform_all (call ∷ calls) b = do b ← perform call b; perform_all calls b

-- The queue has its slots, and its places are among them; it may be full.
pub record IsQueue (q : Queue BleEvent) : Type 0 where
  pub slots : length q.events ≡ 8
  pub head : q.event_head < 8
  pub tail : q.event_tail < 8

-- The advertising data and the scan response, with their lengths.
pub record HasData (adv_data : List ℕ) (n : ℕ) (scan_rsp : List ℕ) (m : ℕ) : Type 0 where
  pub adv_size : length adv_data ≡ 31
  pub adv_bound : n ≤ 31
  pub rsp_size : length scan_rsp ≡ 31
  pub rsp_bound : m ≤ 31

-- A window of at least 2.5 ms in an interval of at most 10.24 s.
pub record CanScan (params : ScanParams) : Type 0 where
  pub least : 4 ≤ params.window
  pub ordered : params.window ≤ params.interval
  pub most : params.interval ≤ 16384

-- The arrays have their sizes, the positions are in range, the accept list is well formed; what
-- advertises or scans does so with valid parameters.
pub record IsSound (b : Ble) : Type 0 where
  pub payloads : HasData b.adv_data b.adv_data_len b.scan_rsp b.scan_rsp_len
  pub tx_size : length b.tx_buf ≡ 257
  pub rx_size : length b.rx_buf ≡ 257
  pub address : length b.own_addr ≡ 6
  pub queue : IsQueue b.events
  pub devices : IsAcceptList b.devices
  pub channel : b.adv_channel_idx < 3
  pub advertises : b.adv_state ≢ idle → IsValid b.adv_params
  pub scans : b.scan_state ≢ idle → CanScan b.scan_params
