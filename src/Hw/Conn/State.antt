-- ===== src/Hw/Conn/State.antt =====
-- The whole connection: `Conn`, `Conn::new`, `handle_l2cap` and the methods on single fields of
-- src/hw/conn.rs. The parts of the code have their own records; the views below take such a record
-- out of a connection, and put it back.
use nrf_ble.Base.{ℕ, ◌+◌, ◌%◌, ◌^◌, List, [], replicate, Bool, true, false, Option, none}
use nrf_ble.Base.Results.{Result, ok, ◌>>=◌}
use nrf_ble.Ll.Pdu.Fields.{ConnectReqData}
use nrf_ble.Hw.Bonds
use nrf_ble.Hw.Bonds.{Bonds}
use nrf_ble.Hw.Ccm.{Ccm}
use nrf_ble.Hw.Smp.State
use nrf_ble.Hw.Smp.State.{Smp}
use nrf_ble.Hw.Timers.{IntervalAccum, new_125ms, timeout_ticks}
use nrf_ble.Hw.Conn.{att_mtu_default, att_payload_max, ll_pdu_payload_default}
use nrf_ble.Hw.Conn.Tx.{Tx, new_tx, queue_notify}
use nrf_ble.Hw.Conn.Rx.{
  Rx, new_rx, Inbound, nothing, to_smp, to_signaling, to_coc, to_att, to_other, demux,
}
use nrf_ble.Hw.Conn.Coc.{Coc, Endpoint, is_coc, handle_le_signaling}
use nrf_ble.Hw.Conn.Coc.Sdu.{rx_coc_sdu}
use nrf_ble.Hw.Conn.Control.{Control, DisconnectReason}
use nrf_ble.Hw.Conn.Gatt.{Values}
use nrf_ble.Hw.Conn.Att.{Att, handle_att}
use nrf_ble.Hw.Conn.Security
use nrf_ble.Hw.Conn.Security.{Security, handle_smp}

pub data ConnRole : Type 0 where
  master slave : ConnRole

abbrev pub is_master : ConnRole → Bool
is_master master = true
is_master slave = false

pub data ConnEvent : Type 0 where
  idle received : ConnEvent
  control l2cap : ℕ → ConnEvent
  disconnected : DisconnectReason → ConnEvent

pub record Conn : Type 0 where
  pub role : ConnRole
  pub access_addr : ℕ
  pub crc_init : ℕ
  pub interval : ℕ
  pub timeout : ℕ
  pub channel_map : List ℕ
  pub hop : ℕ
  pub channel : ℕ
  pub anchor : ℕ
  pub accum : IntervalAccum
  pub rx : Rx
  pub tx : Tx
  pub att_mtu : ℕ
  pub rx_pdu_max : ℕ
  pub coc : Option Coc
  pub bond_store : Bonds
  pub peer_addr : List ℕ
  pub peer_version_ok : Bool
  pub last_rx : ℕ
  pub terminate_pending : Bool
  pub values : Values
  pub rx_buf : List ℕ
  pub event_counter : ℕ
  pub pending_update : Option (ℕ × ℕ)
  pub pending_update_instant : ℕ
  pub pending_request : Bool
  pub smp : Smp
  pub encrypted : Bool
  pub packet_counter : ℕ
  pub ccm : Ccm
  pub want_encrypt : Bool
  pub pairing_in_progress : Bool
  pub pending_control : Option (List ℕ)
  pub gatt_result : List ℕ
  pub gatt_result_len : ℕ

abbrev pub first_anchor : ConnRole → ℕ → ℕ
first_anchor master t = (t + timeout_ticks 200) % 2 ^ 32
first_anchor slave t = t

unfoldable pub new : ConnectReqData → ℕ → ℕ → ConnRole → Conn
new params first_channel t role = record {
  role = role;
  access_addr = params.access_addr;
  crc_init = params.crc_init;
  interval = params.interval;
  timeout = params.timeout;
  channel_map = params.channel_map;
  hop = params.hop;
  channel = first_channel;
  anchor = first_anchor role t;
  accum = new_125ms;
  rx = new_rx;
  tx = new_tx;
  att_mtu = att_mtu_default;
  rx_pdu_max = ll_pdu_payload_default;
  coc = none;
  bond_store = Bonds.new;
  peer_addr = replicate 6 0;
  peer_version_ok = false;
  last_rx = t;
  terminate_pending = false;
  values = record { nus_cccd = 0; rx_data = replicate att_payload_max 0; rx_data_len = 0 };
  rx_buf = replicate 64 0;
  event_counter = 0;
  pending_update = none;
  pending_update_instant = 0;
  pending_request = false;
  smp = State.new;
  encrypted = false;
  packet_counter = 0;
  ccm = record { cfg = replicate 45 0 };
  want_encrypt = false;
  pairing_in_progress = false;
  pending_control = none;
  gatt_result = replicate 64 0;
  gatt_result_len = 0;
}

unfoldable pub terminate : Conn → Conn
terminate c = record c { terminate_pending = true }

unfoldable pub set_peer : List ℕ → Conn → Conn
set_peer peer c = record c { peer_addr = peer }

-- The views.
abbrev pub att_of : Conn → Att
att_of c = record {
  tx = c.tx;
  att_mtu = c.att_mtu;
  pending_request = c.pending_request;
  gatt_result = c.gatt_result;
  gatt_result_len = c.gatt_result_len;
  values = c.values;
}

abbrev pub with_att : Att → Conn → Conn
with_att a c = record c {
  tx = a.tx;
  att_mtu = a.att_mtu;
  pending_request = a.pending_request;
  gatt_result = a.gatt_result;
  gatt_result_len = a.gatt_result_len;
  values = a.values;
}

abbrev pub endpoint_of : Conn → Endpoint
endpoint_of c = record {
  coc = c.coc;
  tx = c.tx;
  rx_data = c.values.rx_data;
  rx_data_len = c.values.rx_data_len;
}

abbrev pub with_endpoint : Endpoint → Conn → Conn
with_endpoint e c = record c {
  coc = e.coc;
  tx = e.tx;
  values = record (c.values) { rx_data = e.rx_data; rx_data_len = e.rx_data_len };
}

abbrev pub security_of : Conn → Security
security_of c = record {
  smp = c.smp;
  tx = c.tx;
  master = is_master c.role;
  pairing_in_progress = c.pairing_in_progress;
  pending_control = c.pending_control;
  want_encrypt = c.want_encrypt;
}

abbrev pub with_security : Security → Conn → Conn
with_security s c = record c {
  smp = s.smp;
  tx = s.tx;
  pairing_in_progress = s.pairing_in_progress;
  pending_control = s.pending_control;
  want_encrypt = s.want_encrypt;
}

-- With nothing handed to the radio yet.
abbrev pub control_of : Conn → Control
control_of c = record {
  tx = c.tx;
  master = is_master c.role;
  stk = c.smp.stk;
  pending_control = c.pending_control;
  peer_version_ok = c.peer_version_ok;
  want_encrypt = c.want_encrypt;
  encrypted = c.encrypted;
  packet_counter = c.packet_counter;
  ccm = c.ccm;
  rx_pdu_max = c.rx_pdu_max;
  pending_update = c.pending_update;
  pending_update_instant = c.pending_update_instant;
  air = [];
}

abbrev pub with_control : Control → Conn → Conn
with_control k c = record c {
  tx = k.tx;
  pending_control = k.pending_control;
  peer_version_ok = k.peer_version_ok;
  want_encrypt = k.want_encrypt;
  encrypted = k.encrypted;
  packet_counter = k.packet_counter;
  ccm = k.ccm;
  rx_pdu_max = k.rx_pdu_max;
  pending_update = k.pending_update;
  pending_update_instant = k.pending_update_instant;
}

-- `queue_encrypt_req`
unfoldable pub queue_encrypt_req : Conn → Conn
queue_encrypt_req c = with_security (Security.queue_encrypt_req (security_of c)) c

abbrev pub notify : List ℕ → Conn → Result ⊥ Conn
notify payload c = do tx ← queue_notify payload c.tx; ok (record c { tx = tx })

-- Data was received, or the result is what it was.
abbrev pub event_of : Bool → ConnEvent → ConnEvent
event_of true result = received
event_of false result = result

module _ (encrypt : List ℕ → List ℕ → List ℕ) where
  -- The handler for a message, and the result of the event.
  unfoldable pub deliver : Inbound → ConnEvent → Conn → Result ⊥ (ConnEvent × Conn)
  deliver nothing result c = ok (result, c)
  deliver (to_smp body) result c = do
    s ← handle_smp encrypt body (security_of c)
    ok (result, with_security s c)
  deliver (to_signaling body) result c = do
    e ← handle_le_signaling body (endpoint_of c)
    ok (result, with_endpoint e c)
  deliver (to_coc body) result c = do
    (complete, e) ← rx_coc_sdu body (endpoint_of c)
    ok (event_of complete result, with_endpoint e c)
  deliver (to_att att) result c = do
    (written, a) ← handle_att att (att_of c)
    ok (event_of written result, with_att a c)
  deliver (to_other cid) result c = ok (l2cap cid, c)

  unfoldable pub handle_l2cap : List ℕ → ℕ → ConnEvent → Conn → Result ⊥ (ConnEvent × Conn)
  handle_l2cap payload llid result c = do
    (inbound, rx) ← demux (is_coc c.coc) payload llid c.rx
    deliver inbound result (record c { rx = rx })
