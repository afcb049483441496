-- ===== src/Hw/Ble/Link.antt =====
-- The connection of `Ble` (src/hw/ble.rs): `conn_tick`, and the methods that work on the connection.
pub mod Outcomes
pub mod Supervision
use nrf_ble.Base.{
  ℕ, ◌+◌, ◌*◌, ◌-◌, ◌%◌, ◌^◌, min, ltb, leb, ◌==◌, if◌then◌else◌, List, [], ◌∷◌, ◌++◌, length, take,
  replicate, Bool, true, false, Option, none, some,
}
use nrf_ble.Base.Results.{
  Result, ok, err, panic, Error, not_running, invalid_param, lift, ◌>>=◌, slice, copy_to, put,
}
use nrf_ble.Ll.Pdu.Fields.{le16}
use nrf_ble.Hw.Bonds
use nrf_ble.Hw.Bonds.{BondInfo}
use nrf_ble.Hw.Smp.State.{idle}
use nrf_ble.Hw.Smp.Pairing.{build_pairing_request}
use nrf_ble.Hw.Conn.Control.{DisconnectReason, supervision_timeout, local_error}
use nrf_ble.Hw.Conn.Coc
use nrf_ble.Hw.Conn.Coc.Sdu
use nrf_ble.Hw.Conn.Att.{gatt_send_request, gatt_take_result}
use nrf_ble.Hw.Conn.Security.{l2cap_smp_cid}
use nrf_ble.Hw.Conn.State
use nrf_ble.Hw.Conn.State.{
  Conn, ConnRole, master, slave, is_master, ConnEvent, endpoint_of, with_endpoint, att_of, with_att,
  queue_encrypt_req, notify,
}
use nrf_ble.Hw.Conn.Event.{Outcome, event}
use nrf_ble.Hw.Conn.Tx.{queue_l2cap}
use nrf_ble.Hw.Ble.{Ble, BleEvent, conn_data, ll_control, push}
use nrf_ble.Hw.Ble
use nrf_ble.Hw.Io.{Io, Blocked, now, with_radio}
use nrf_ble.Hw.Radio

-- What a method returns that fails without a connection.
abbrev pub Fallible : Type 0
Fallible = Result Error (Unit {0}) × Ble

-- `self.conn.as_mut().ok_or(Error::NotRunning)?`, and what is done with the connection.
abbrev pub on_conn :
    Option Conn → Ble → (Conn → Result ⊥ (Result Error (Unit {0}) × Conn)) → Result ⊥ Fallible
on_conn none b f = ok (err not_running, b)
on_conn (some c) b f = do (result, c) ← f c; ok (result, record b { conn = some c })

abbrev pub done : Conn → Result ⊥ (Result Error (Unit {0}) × Conn)
done c = ok (ok tt, c)

unfoldable pub conn_send : List ℕ → Ble → Result ⊥ Fallible
conn_send payload b = on_conn b.conn b (λ c. do c ← notify payload c; done c)

unfoldable pub l2cap_connect : ℕ → Ble → Result ⊥ Fallible
l2cap_connect psm b =
    on_conn b.conn b (λ c. do e ← Coc.l2cap_connect psm (endpoint_of c); done (with_endpoint e c))

unfoldable pub l2cap_send : List ℕ → Ble → Result ⊥ Fallible
l2cap_send payload b =
    on_conn b.conn b
      (λ c. do (result, e) ← Sdu.l2cap_send payload (endpoint_of c); ok (result, with_endpoint e c))

abbrev pub pair_as : ConnRole → Conn → Result ⊥ Conn
pair_as master c =
    let (req, smp) = build_pairing_request c.smp in
    (do
      req ← copy_to (replicate 7 0) 0 7 req
      l2 ← copy_to (replicate 11 0) 0 2 (le16 7)
      l2 ← copy_to l2 2 4 (le16 l2cap_smp_cid)
      l2 ← copy_to l2 4 11 req
      tx ← queue_l2cap l2 l2cap_smp_cid c.tx
      ok (record c { smp = smp; tx = tx }))
pair_as slave c = ok (record c { smp = record (c.smp) { state = idle } })

unfoldable pub gap_pair : Ble → Result ⊥ Fallible
gap_pair b = on_conn b.conn b (λ c. do c ← pair_as c.role c; done c)

abbrev pub encrypt_with : Option BondInfo → Conn → Result ⊥ (Result Error (Unit {0}) × Conn)
encrypt_with none c = ok (err not_running, c)
encrypt_with (some bond) c =
    done (queue_encrypt_req (record c { smp = record (c.smp) { stk = bond.ltk } }))

unfoldable pub gap_encrypt : Ble → Result ⊥ Fallible
gap_encrypt b = on_conn b.conn b (λ c.
    if is_master c.role
    then encrypt_with (Bonds.find c.bond_store c.peer_addr) c
    else ok (err invalid_param, c))

-- `if let Some(conn) = &mut self.conn`
abbrev pub update : Option Conn → Ble → (Conn → Conn) → Ble
update none b f = b
update (some c) b f = record b { conn = some (f c) }

unfoldable pub gap_bond_save : List ℕ → List ℕ → Option (List ℕ) → Ble → Ble
gap_bond_save peer ltk irk b =
    update b.conn b (λ c. record c { bond_store = Bonds.save c.bond_store peer ltk irk })

unfoldable pub gap_bond_find : List ℕ → Ble → Option BondInfo
gap_bond_find peer b = elim b.conn [ none ↦ none | some c ↦ Bonds.find c.bond_store peer ]

unfoldable pub gap_terminate : Ble → Result ⊥ Fallible
gap_terminate b = on_conn b.conn b (λ c. done (State.terminate c))

unfoldable pub conn_is_master : Ble → Bool
conn_is_master b = elim b.conn [ none ↦ false | some c ↦ is_master c.role ]

abbrev pub rx_data_of : Option Conn → Result ⊥ (List ℕ)
rx_data_of none = ok []
rx_data_of (some c) = slice c.values.rx_data 0 c.values.rx_data_len

unfoldable pub conn_rx_data : Ble → Result ⊥ (List ℕ)
conn_rx_data b = rx_data_of b.conn

-- A request of the GATT client.
abbrev pub request : List ℕ → Ble → Result ⊥ Fallible
request req b = on_conn b.conn b (λ c. do a ← gatt_send_request req (att_of c); done (with_att a c))

unfoldable pub gatt_discover_primary_services : Ble → Result ⊥ Fallible
gatt_discover_primary_services b =
    request (0x10 ∷ [] ++ le16 0x2800 ++ le16 0x0001 ++ le16 0xFFFF) b

unfoldable pub gatt_discover_characteristics : ℕ → ℕ → Ble → Result ⊥ Fallible
gatt_discover_characteristics start end b =
    request (0x08 ∷ [] ++ le16 0x2803 ++ le16 start ++ le16 end) b

unfoldable pub gatt_read : ℕ → Ble → Result ⊥ Fallible
gatt_read handle b = request (0x0A ∷ [] ++ le16 handle) b

-- At most 20 bytes of the value are sent.
unfoldable pub gatt_write : ℕ → List ℕ → Ble → Result ⊥ Fallible
gatt_write handle payload b =
    request (0x12 ∷ [] ++ le16 handle ++ take (min (length payload) 20) payload) b

unfoldable pub gatt_subscribe : ℕ → Ble → Result ⊥ Fallible
gatt_subscribe cccd_handle b = request (0x12 ∷ [] ++ le16 cccd_handle ++ le16 0x0001) b

unfoldable pub gatt_poll : Ble → Result ⊥ (Option (ℕ × List ℕ × ℕ) × Ble)
gatt_poll b = poll b.conn
  where
    poll : Option Conn → Result ⊥ (Option (ℕ × List ℕ × ℕ) × Ble)
    poll none = ok (none, b)
    poll (some c) = do
      ((op, buf, len), a) ← gatt_take_result (att_of c)
      let b : Ble = record b { conn = some (with_att a c) }
      ok (if ltb 0 len then some (op, buf, len) else none, b)

-- The link is closed: the event says why.
abbrev pub close : DisconnectReason → Ble → Result Blocked (Bool × Ble)
close reason b = do
  b ← push (Ble.disconnected reason) (record b { conn = none; io = with_radio Radio.init b.io })
  ok (false, b)

-- The event for what a connection reports.
abbrev pub reported : ConnEvent → Ble → Result Blocked Ble
reported (ConnEvent.control op) b = push (ll_control op) b
reported (ConnEvent.l2cap cid) b = push (Ble.l2cap cid) b
reported ConnEvent.idle b = ok b
reported ConnEvent.received b = ok b
reported (ConnEvent.disconnected reason) b = ok b

-- Data that has arrived is reported, and counts as read.
abbrev pub report_data : Option Conn → Ble → Result Blocked Ble
report_data none b = ok b
report_data (some c) b =
    if ltb 0 c.values.rx_data_len
    then push conn_data
        (record b { conn = some (record c { values = record (c.values) { rx_data_len = 0 } }) })
    else ok b

abbrev pub after_event : Result Error ConnEvent → Ble → Result Blocked (Bool × Ble)
after_event (ok (ConnEvent.disconnected reason)) b = close reason b
after_event (ok result) b = do b ← reported result b; b ← report_data b.conn b; ok (true, b)
after_event (err e) b = close local_error b
after_event panic b = panic

-- `now.wrapping_sub(conn.last_rx)`
abbrev pub elapsed : ℕ → ℕ → ℕ
elapsed t last_rx = (t + 2 ^ 32 - last_rx) % 2 ^ 32

module _ (encrypt : List ℕ → List ℕ → List ℕ) (block : List ℕ → Bool → List ℕ → Bool × List ℕ) where
  abbrev pub tick_on : Option Conn → Ble → Result Blocked (Bool × Ble)
  tick_on none b = close local_error b
  tick_on (some c) b = do
    (t, io) ← now b.io
    if leb (c.timeout * 313) (elapsed t c.last_rx)
        then close supervision_timeout (record b { io = io })
        else (do
          (result, c, io) ← event encrypt block c io
          after_event result (record b { conn = some c; io = io }))

  -- Whether the link is still open.
  unfoldable pub conn_tick : Ble → Result Blocked (Bool × Ble)
  conn_tick b = tick_on b.conn b
