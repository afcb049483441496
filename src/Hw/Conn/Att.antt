-- ===== src/Hw/Conn/Att.antt =====
-- The attribute protocol: `handle_att`, `gatt_send_request`, `gatt_take_result` and
-- `att_response_last_handle` of src/hw/conn.rs. A response `rsp[..pos]` is the list of the bytes
-- written so far, in place of an array and a position.
pub mod Cccd
pub mod Client
pub mod Discovery
use nrf_ble.Base.{
  ℕ, ◌+◌, ◌-◌, ◌*◌, ◌/◌, ◌%◌, min, max, ltb, leb, ◌==◌, if◌then◌else◌, List, [], ◌∷◌, ◌++◌, length,
  take, drop, replicate, Bool, true, false, not, ◌&&◌, ◌||◌, Option, none, some,
}
use nrf_ble.Base.Results.{Result, ok, err, panic, Error, ◌>>=◌, index, slice, copy_to, put}
use nrf_ble.Ll.Pdu.Fields.{le16, from_le16}
use nrf_ble.Hw.Conn.{att_mtu_default}
use nrf_ble.Hw.Conn.Coc.{u16_at}
use nrf_ble.Hw.Conn.Tx.{Tx, queue_att}
use nrf_ble.Hw.Conn.Gatt.{
  GattUuid, as_u16, to_128, entries, by_type, primary_services, Values, read, write,
  gatt_uuid_primary_service,
}

-- The fields of `Conn` that the attribute protocol uses; `gatt_result` has 64 elements.
pub record Att : Type 0 where
  pub tx : Tx
  pub att_mtu : ℕ
  pub pending_request : Bool
  pub gatt_result : List ℕ
  pub gatt_result_len : ℕ
  pub values : Values

abbrev pub queue : List ℕ → Att → Result ⊥ Att
queue rsp a = do tx ← queue_att rsp a.tx; ok (record a { tx = tx })

-- `handle` as the next bytes, and a value behind it, if the response of 64 bytes has room for them.
abbrev pub entry_of : ℕ → List ℕ → List ℕ
entry_of handle value = le16 handle ++ value

abbrev pub add_if_room : List ℕ → List ℕ → ℕ → List ℕ
add_if_room rsp entry room = if leb (length rsp + length entry) room then rsp ++ entry else rsp

-- Whether all of the entries have short ids.
unfoldable pub all_short : List (ℕ × GattUuid) → Bool
all_short [] = true
all_short ((handle, uuid) ∷ rest) =
    let short = all_short rest in elim (as_u16 uuid) [ none ↦ false | some _ ↦ short ]

abbrev pub information : Bool → ℕ × GattUuid → List ℕ
information short (handle, uuid) = elim (as_u16 uuid) [
  | none ↦ entry_of handle (to_128 uuid)
  | some u ↦
      if short
      then entry_of handle (le16 u)
      else entry_of handle (0 ∷ 0 ∷ [] ++ le16 u ++ replicate 12 0)
]

unfoldable pub add_information : Bool → List ℕ → List (ℕ × GattUuid) → List ℕ
add_information short rsp [] = rsp
add_information short rsp (e ∷ rest) =
    add_information short (add_if_room rsp (information short e) 64) rest

-- Find information.
unfoldable pub find_information : List ℕ → Result ⊥ (List ℕ)
find_information att = do
  start ← u16_at att 1
  end ← u16_at att 3
  let found = entries start end
  let short = all_short found
  ok (add_information short (0x05 ∷ (if short then 0x01 else 0x02) ∷ []) found)

-- The loop over found values: every entry takes `width` bytes.
unfoldable pub add_values : ℕ → ℕ → List ℕ → List (ℕ × List ℕ) → List ℕ
add_values width room rsp [] = rsp
add_values width room rsp ((handle, value) ∷ rest) =
    add_values width room
      (add_if_room rsp (take width (entry_of handle value ++ replicate width 0)) room) rest

-- A list of values behind its opcode and the width of an entry, which the first one sets.
unfoldable pub value_list : ℕ → ℕ → List (ℕ × List ℕ) → List ℕ
value_list op room [] = op ∷ 0 ∷ []
value_list op room ((handle, value) ∷ rest) =
    let width = 2 + length value in add_values width room (op ∷ width ∷ []) ((handle, value) ∷ rest)

unfoldable pub read_by_type : List ℕ → Result ⊥ (List ℕ)
read_by_type att = do
  uuid ← u16_at att 1
  start ← u16_at att 3
  end ← u16_at att 5
  ok (value_list 0x09 64 (by_type start end uuid))

unfoldable pub read_by_group : List ℕ → Result ⊥ (List ℕ)
read_by_group att = do
  uuid ← u16_at att 1
  start ← u16_at att 3
  end ← u16_at att 5
  ok (
      if uuid == gatt_uuid_primary_service
      then value_list 0x11 32 (primary_services start end)
      else 0x01 ∷ 0x10 ∷ 0x00 ∷ 0x00 ∷ 0x10 ∷ [])

unfoldable pub read_response : Option (List ℕ) → List ℕ
read_response (some value) = 0x0B ∷ value
read_response none = 0x01 ∷ 0x0A ∷ 0x00 ∷ 0x00 ∷ 0x0A ∷ []

unfoldable pub blob_response : ℕ → Option (List ℕ) → List ℕ
blob_response offset (some value) =
    if ltb offset (length value)
    then 0x0D ∷ drop offset value
    else 0x01 ∷ 0x0C ∷ 0x00 ∷ 0x00 ∷ 0x0A ∷ []
blob_response offset none = 0x01 ∷ 0x0C ∷ 0x00 ∷ 0x00 ∷ 0x0A ∷ []

abbrev pub is_response : ℕ → Bool
is_response op =
    op == 0x01
    || op == 0x03
    || op == 0x09
    || op == 0x0B
    || op == 0x11
    || op == 0x13
    || op == 0x15
    || op == 0x17

-- The MTU after a response, which may be one to our exchange of it.
abbrev pub negotiated : ℕ → List ℕ → ℕ → Result ⊥ ℕ
negotiated op att att_mtu =
    if op == 0x03 && leb 3 (length att)
    then (do peer ← u16_at att 1; ok (max (min att_mtu peer) att_mtu_default))
    else ok att_mtu

-- A response to our request: it is kept for the application.
unfoldable pub keep_response : ℕ → List ℕ → Att → Result ⊥ Att
keep_response op att a = do
  att_mtu ← negotiated op att a.att_mtu
  let n = min (length att) (length a.gatt_result)
  part ← slice att 0 n
  gatt_result ← copy_to a.gatt_result 0 n part
  ok (record a {
    att_mtu = att_mtu;
    pending_request = false;
    gatt_result = gatt_result;
    gatt_result_len = n;
  })

-- A notification: its value is data for the application.
unfoldable pub take_notification : List ℕ → Att → Result ⊥ Att
take_notification att a = do
  handle ← u16_at att 1
  let n = min (length att - 3) 20
  part ← slice att 3 (3 + n)
  buf ← copy_to (replicate 20 0) 0 n part
  part ← slice buf 0 n
  rx_data ← copy_to a.values.rx_data 0 n part
  ok (record a { values = record (a.values) { rx_data = rx_data; rx_data_len = n } })

abbrev pub write_response : Result Error (Unit {0}) → Result ⊥ (List ℕ)
write_response (ok done) = ok (0x13 ∷ [])
write_response (err e) = ok (0x01 ∷ 0x12 ∷ 0x00 ∷ 0x00 ∷ 0x12 ∷ [])
write_response panic = panic

-- A write request with a response, or a write command without one.
unfoldable pub handle_write : Bool → List ℕ → Att → Result ⊥ (Bool × Att)
handle_write answered att a = do
  handle ← u16_at att 1
  value ← slice att 3 (length att)
  (result, reported, values) ← write handle value a.values
  let a : Att = record a { values = values }
  if answered
      then (do rsp ← write_response result; a ← queue rsp a; ok (reported, a))
      else ok (reported, a)

-- A request with a response and no other effect.
abbrev pub respond_with : Result ⊥ (List ℕ) → Att → Result ⊥ (Bool × Att)
respond_with rsp a = do rsp ← rsp; a ← queue rsp a; ok (false, a)

-- Whether the event becomes `ConnEvent::Data`, and the state afterwards.
unfoldable pub handle_att : List ℕ → Att → Result ⊥ (Bool × Att)
handle_att [] a = ok (false, a)
handle_att (op ∷ rest) a =
    let att = op ∷ rest in
    if a.pending_request && is_response op
    then (do a ← keep_response op att a; ok (false, a))
    else if op == 0x1B
    then (do a ← take_notification att a; ok (true, a))
    else if op == 0x02
    then respond_with (ok (0x03 ∷ le16 a.att_mtu ++ 0 ∷ 0 ∷ [])) a
    else if op == 0x04
    then respond_with (find_information att) a
    else if op == 0x08
    then respond_with (read_by_type att) a
    else if op == 0x0A
    then respond_with (do handle ← u16_at att 1; ok (read_response (read handle a.values))) a
    else if op == 0x0C
    then respond_with
        (do
          handle ← u16_at att 1
          offset ← u16_at att 3
          ok (blob_response offset (read handle a.values)))
        a
    else if op == 0x10
    then respond_with (read_by_group att) a
    else if op == 0x12
    then handle_write true att a
    else if op == 0x52
    then handle_write false att a
    else respond_with (ok (0x01 ∷ op ∷ 0x00 ∷ 0x00 ∷ 0x06 ∷ [])) a

unfoldable pub gatt_send_request : List ℕ → Att → Result ⊥ Att
gatt_send_request att a = do a ← queue att a; ok (record a { pending_request = true })

-- The opcode, the buffer and the length; the length and the first byte of the result become 0.
unfoldable pub gatt_take_result : Att → Result ⊥ ((ℕ × List ℕ × ℕ) × Att)
gatt_take_result a = do
  op ← index a.gatt_result 0
  gatt_result ← put a.gatt_result 0 0
  buf ← put a.gatt_result 0 op
  ok ((op, buf, a.gatt_result_len), record a { gatt_result = gatt_result; gatt_result_len = 0 })

unfoldable pub att_response_last_handle : List ℕ → Result ⊥ (Option ℕ)
att_response_last_handle buf = if ltb (length buf) 2 then ok none else (do
  width ← index buf 1
  let entries = (length buf - 2) / width
  if ltb width 2
      then ok none
      else if entries == 0
      then ok none
      else (do last ← u16_at buf (2 + (entries - 1) * width); ok (some last)))
