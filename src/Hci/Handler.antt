-- ===== src/Hci/Handler.antt =====
-- The controller side: `Hci` of src/hci.rs, which answers commands and forwards the events of `Ble`.
-- ACL data is not handled there.
pub mod Answers
pub mod Calls
pub mod Forward
pub mod Commands
use nrf_ble.Base.{
  ℕ, zero, suc, ◌+◌, ◌*◌, ◌/◌, ◌%◌, ◌^◌, min, bit_and, bit_or, leb, ◌==◌, if◌then◌else◌, List, [],
  ◌∷◌, ◌++◌, length, replicate, Bool, true, false, Option, none, some,
}
use nrf_ble.Base.Results.{Result, ok, err, panic, lift, ◌>>=◌, index, slice, copy_to, put}
use nrf_ble.Ll.Addr.{public, is_random}
use nrf_ble.Ll.Pdu.Fields.{ConnectReqData}
use nrf_ble.Hci.{HciPacket, H4Framer, new_framer, feed as feed_framer, event, hci_command}
use nrf_ble.Hw.Conn.Control.{
  DisconnectReason, remote_terminate, host_terminate, supervision_timeout, local_error,
}
use nrf_ble.Hw.Ble.{
  Ble, BleEvent, connected, disconnected, scan_report, Report, default_adv_params,
  default_scan_params,
}
use nrf_ble.Hw.Ble
use nrf_ble.Hw.Ble.Gap.{
  Fallible, gap_adv_set_configure, gap_adv_start, gap_adv_stop, gap_scan_start, gap_scan_stop,
  gap_connect,
}
use nrf_ble.Hw.Ble.Link.{conn_is_master}
use nrf_ble.Hw.Io.{Blocked}
use nrf_ble.Hw.Queue
use nrf_ble.Hw.Queue.{Queue, hci_queue_len}

abbrev pub hci_evt_command_complete : ℕ
hci_evt_command_complete = 0x0E

abbrev pub hci_evt_command_status : ℕ
hci_evt_command_status = 0x0F

abbrev pub hci_evt_le_meta : ℕ
hci_evt_le_meta = 0x3E

abbrev pub hci_evt_disconnection_complete : ℕ
hci_evt_disconnection_complete = 0x05

abbrev pub hci_le_advertising_report : ℕ
hci_le_advertising_report = 0x02

abbrev pub hci_le_connection_complete : ℕ
hci_le_connection_complete = 0x01

abbrev pub ogf_host : ℕ
ogf_host = 0x03

abbrev pub ogf_le : ℕ
ogf_le = 0x08

abbrev pub ocf_read_local_version : ℕ
ocf_read_local_version = 0x0001

abbrev pub ocf_read_bd_addr : ℕ
ocf_read_bd_addr = 0x0009

abbrev pub ocf_read_buffer_size : ℕ
ocf_read_buffer_size = 0x0005

abbrev pub ocf_le_set_adv_params : ℕ
ocf_le_set_adv_params = 0x0006

abbrev pub ocf_le_set_adv_data : ℕ
ocf_le_set_adv_data = 0x0008

abbrev pub ocf_le_set_adv_enable : ℕ
ocf_le_set_adv_enable = 0x000A

abbrev pub ocf_le_set_scan_params : ℕ
ocf_le_set_scan_params = 0x000B

abbrev pub ocf_le_set_scan_enable : ℕ
ocf_le_set_scan_enable = 0x000C

abbrev pub ocf_le_create_connection : ℕ
ocf_le_create_connection = 0x000D

abbrev pub ocf_le_set_random_address : ℕ
ocf_le_set_random_address = 0x0005

pub record Hci : Type 0 where
  pub framer : H4Framer
  pub events : Queue HciPacket
  pub own_addr : List ℕ
  pub adv_enabled : Bool
  pub scan_enabled : Bool
  pub conn_handle : ℕ
  pub connection_open : Bool

unfoldable pub new : Hci
new = record {
  framer = new_framer;
  events = Queue.empty hci_queue_len;
  own_addr = replicate 6 0;
  adv_enabled = false;
  scan_enabled = false;
  conn_handle = 0;
  connection_open = false;
}

unfoldable pub feed : Hci → ℕ → Result ⊥ (Hci × Option HciPacket)
feed h byte = do
  (framer, packet) ← feed_framer h.framer byte
  ok (record h { framer = framer }, packet)

unfoldable pub push_event : HciPacket → Hci → Result ⊥ Hci
push_event evt h = do
  events ← Queue.push_event hci_queue_len h.events evt
  ok (record h { events = events })

unfoldable pub next_event : Hci → Result ⊥ (Option HciPacket × Hci)
next_event h = do
  (evt, events) ← Queue.next_event hci_queue_len h.events
  ok (evt, record h { events = events })

unfoldable pub command_complete : ℕ × ℕ → ℕ → List ℕ → Hci → Result ⊥ Hci
command_complete (op0, op1) status params h = do
  let payload = replicate 260 0
  payload ← copy_to payload 0 4 (1 ∷ op0 ∷ op1 ∷ status ∷ [])
  payload ← copy_to payload 4 (4 + length params) params
  part ← slice payload 0 (4 + length params)
  evt ← event hci_evt_command_complete part
  push_event evt h

unfoldable pub command_status : ℕ × ℕ → ℕ → Hci → Result ⊥ Hci
command_status (op0, op1) status h = do
  evt ← event hci_evt_command_status (status ∷ 1 ∷ op0 ∷ op1 ∷ 0 ∷ [])
  push_event evt h

abbrev pub Handled : Type 0
Handled = Result Blocked (Hci × Ble)

abbrev pub complete : ℕ × ℕ → List ℕ → Hci → Ble → Handled
complete op params h b = do h ← lift (command_complete op 0 params h); ok (h, b)

abbrev pub on_host : ℕ → ℕ × ℕ → Hci → Ble → Handled
on_host ocf op h b =
    if ocf == ocf_read_local_version
    then complete op (0x0C ∷ 0 ∷ 0 ∷ 0 ∷ 0 ∷ 0 ∷ 0 ∷ 0 ∷ []) h b
    else if ocf == ocf_read_bd_addr
    then (do own ← copy_to (replicate 6 0) 0 6 h.own_addr; complete op own h b)
    else if ocf == ocf_read_buffer_size
    then complete op (replicate 8 0) h b
    else complete op [] h b

-- `params.first() == Some(&1)`
abbrev pub enables : List ℕ → Bool
enables [] = false
enables (x ∷ rest) = x == 1

-- The result of the call is dropped.
abbrev pub state_of : Fallible → Ble
state_of (result, b) = b

abbrev pub set_adv_data : List ℕ → Ble → Result Blocked Ble
set_adv_data params b =
    if leb 32 (length params)
    then (do
      first ← index params 0
      let n = min first 31
      part ← slice params 1 (1 + n)
      buf ← copy_to (replicate 31 0) 0 n part
      part ← slice buf 0 n
      r ← gap_adv_set_configure part [] b
      ok (state_of r))
    else ok b

abbrev pub set_adv_enable : List ℕ → Ble → Result Blocked Ble
set_adv_enable params b =
    if enables params
    then (do r ← gap_adv_start default_adv_params b; ok (state_of r))
    else ok (state_of (gap_adv_stop b))

abbrev pub set_scan_enable : List ℕ → Ble → Result Blocked Ble
set_scan_enable params b =
    if enables params
    then (do r ← gap_scan_start default_scan_params b; ok (state_of r))
    else ok (state_of (gap_scan_stop b))

abbrev pub create_connection : List ℕ → Ble → Result Blocked Ble
create_connection params b =
    if leb 25 (length params)
    then (do
      part ← slice params 14 20
      target ← copy_to (replicate 6 0) 0 6 part
      r ← gap_connect target public b
      ok (state_of r))
    else ok b

abbrev pub set_random_address : List ℕ → Hci → Result Blocked Hci
set_random_address params h =
    if leb 6 (length params)
    then (do
      part ← slice params 0 6
      a ← copy_to (replicate 6 0) 0 6 part
      ok (record h { own_addr = a }))
    else ok h

abbrev pub on_le : ℕ → ℕ × ℕ → List ℕ → Hci → Ble → Handled
on_le ocf op params h b =
    if ocf == ocf_le_set_adv_data
    then (do b ← set_adv_data params b; complete op [] h b)
    else if ocf == ocf_le_set_adv_params
    then complete op [] h b
    else if ocf == ocf_le_set_adv_enable
    then (do
      b ← set_adv_enable params b
      complete op [] (record h { adv_enabled = enables params }) b)
    else if ocf == ocf_le_set_scan_params
    then complete op [] h b
    else if ocf == ocf_le_set_scan_enable
    then (do
      b ← set_scan_enable params b
      complete op [] (record h { scan_enabled = enables params }) b)
    else if ocf == ocf_le_create_connection
    then (do b ← create_connection params b; h ← lift (command_status op 0 h); ok (h, b))
    else if ocf == ocf_le_set_random_address
    then (do h ← set_random_address params h; complete op [] h b)
    else complete op [] h b

unfoldable pub handle_command : HciPacket → Hci → Ble → Handled
handle_command packet h b = do
  op0 ← index packet.payload 0
  op1 ← index packet.payload 1
  let opcode = bit_or op0 (op1 * 2 ^ 8)
  let ocf = bit_and opcode 0x03FF
  let ogf = bit_and (opcode / 2 ^ 10) 0x3F
  params ← slice packet.payload 3 packet.len
  if ogf == ogf_host
      then on_host ocf (op0, op1) h b
      else if ogf == ogf_le
      then on_le ocf (op0, op1) params h b
      else complete (op0, op1) [] h b

-- ACL data and other packets change nothing.
unfoldable pub on_packet : HciPacket → Hci → Ble → Handled
on_packet packet h b =
    if packet.packet_type == hci_command then handle_command packet h b else ok (h, b)

-- `reason as u8`
abbrev pub reason_code : DisconnectReason → ℕ
reason_code remote_terminate = 0
reason_code host_terminate = 1
reason_code supervision_timeout = 2
reason_code local_error = 3

-- The advertising report: `payload[..total]`.
abbrev pub report_payload : Report → Result ⊥ (List ℕ)
report_payload r = do
  let n = min r.report_len 27
  let total = 11 + n + 1
  let kind = if is_random r.addr_type then 0x01 else 0x00
  payload ← copy_to (replicate 260 0) 0 4 (hci_le_advertising_report ∷ 1 ∷ r.adv_type ∷ kind ∷ [])
  payload ← copy_to payload 4 10 r.addr
  payload ← put payload 10 (n % 256)
  part ← slice r.report 0 n
  payload ← copy_to payload 11 (11 + n) part
  payload ← put payload (11 + n) r.rssi
  slice payload 0 total

abbrev pub connection_payload : Bool → ConnectReqData → List ℕ
connection_payload master conn =
    hci_le_connection_complete ∷ 0 ∷ 0 ∷ 0 ∷ 0 ∷ (if master then 0x01 else 0x00) ∷ 0 ∷ []
    ++ (replicate 6 0
        ++ (conn.interval % 256
            ∷ conn.interval / 2 ^ 8 % 256
            ∷ 0
            ∷ 0
            ∷ conn.timeout % 256
            ∷ conn.timeout / 2 ^ 8 % 256
            ∷ 0
            ∷ 0
            ∷ []))

-- What `tick` does with one event of the stack.
unfoldable pub forward : BleEvent → Ble → Hci → Result ⊥ Hci
forward (scan_report r) b h = do
  payload ← report_payload r
  evt ← event hci_evt_le_meta payload
  push_event evt h
forward (connected conn) b h = do
  evt ← event hci_evt_le_meta (connection_payload (conn_is_master b) conn)
  push_event evt (record h { connection_open = true; conn_handle = 0 })
forward (disconnected reason) b h = do
  evt ← event hci_evt_disconnection_complete (0 ∷ 0 ∷ 0 ∷ reason_code reason ∷ [])
  h ← push_event evt h
  ok (record h { connection_open = false })
forward _ b h = ok h

abbrev pub forwarded :
    Option BleEvent → Ble → Hci → (Ble → Hci → Result ⊥ (Hci × Ble)) → Result ⊥ (Hci × Ble)
forwarded none b h again = ok (h, b)
forwarded (some evt) b h again = do h ← forward evt b h; again b h

-- The loop, with a number of turns left.
unfoldable pub tick_loop : ℕ → Ble → Hci → Result ⊥ (Hci × Ble)
tick_loop zero b h = ok (h, b)
tick_loop (suc turns) b h = do (evt, b) ← Ble.next_event b; forwarded evt b h (tick_loop turns)

-- A queue of eight slots is empty after eight events.
unfoldable pub tick : Ble → Hci → Result ⊥ (Hci × Ble)
tick b h = tick_loop (suc Queue.ble_queue_len) b h
