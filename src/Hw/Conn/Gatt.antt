-- ===== src/Hw/Conn/Gatt.antt =====
-- The attributes of the server: `GattUuid`, `entries`, `by_type`, `primary_services`, `read` and
-- `write` of src/hw/conn.rs. The first `n` elements of an array that a method returns with a count
-- `n` are a list here.
use nrf_ble.Base.{
  ℕ, min, bit_and, leb, ◌==◌, if◌then◌else◌, List, [], ◌∷◌, ◌++◌, length, replicate, Bool, true,
  false, not, ◌&&◌, Option, none, some,
}
use nrf_ble.Base.Results.{Result, ok, err, Error, invalid_pdu, ◌>>=◌, slice, copy_to}
use nrf_ble.Ll.Pdu.Fields.{le16}

abbrev pub gatt_uuid_primary_service : ℕ
gatt_uuid_primary_service = 0x2800

abbrev pub gatt_uuid_characteristic : ℕ
gatt_uuid_characteristic = 0x2803

abbrev pub gatt_uuid_client_char_cfg : ℕ
gatt_uuid_client_char_cfg = 0x2902

abbrev pub nus_service_uuid : List ℕ
nus_service_uuid =
    0x9E ∷ 0xCA ∷ 0xDC ∷ 0x24 ∷ 0x0E ∷ 0xE5 ∷ 0xA9 ∷ 0xE0 ∷ 0x93 ∷ 0xF3 ∷ 0xA3 ∷ 0xB5 ∷ 0x01 ∷ 0x00
    ∷ 0x40 ∷ 0x6E ∷ []

abbrev pub nus_tx_char_uuid : List ℕ
nus_tx_char_uuid =
    0x9E ∷ 0xCA ∷ 0xDC ∷ 0x24 ∷ 0x0E ∷ 0xE5 ∷ 0xA9 ∷ 0xE0 ∷ 0x93 ∷ 0xF3 ∷ 0xA3 ∷ 0xB5 ∷ 0x03 ∷ 0x00
    ∷ 0x40 ∷ 0x6E ∷ []

abbrev pub nus_rx_char_uuid : List ℕ
nus_rx_char_uuid =
    0x9E ∷ 0xCA ∷ 0xDC ∷ 0x24 ∷ 0x0E ∷ 0xE5 ∷ 0xA9 ∷ 0xE0 ∷ 0x93 ∷ 0xF3 ∷ 0xA3 ∷ 0xB5 ∷ 0x02 ∷ 0x00
    ∷ 0x40 ∷ 0x6E ∷ []

abbrev pub handle_primary_service : ℕ
handle_primary_service = 1

abbrev pub handle_rx_char_decl : ℕ
handle_rx_char_decl = 2

abbrev pub handle_rx_value : ℕ
handle_rx_value = 3

abbrev pub handle_tx_char_decl : ℕ
handle_tx_char_decl = 4

abbrev pub handle_tx_value : ℕ
handle_tx_value = 5

abbrev pub handle_tx_cccd : ℕ
handle_tx_cccd = 6

pub data GattUuid : Type 0 where
  uuid16 : ℕ → GattUuid
  uuid128 : List ℕ → GattUuid

unfoldable pub as_u16 : GattUuid → Option ℕ
as_u16 (uuid16 u) = some u
as_u16 (uuid128 u) = none

unfoldable pub to_128 : GattUuid → List ℕ
to_128 (uuid16 u) = replicate 16 0
to_128 (uuid128 u) = u

-- The array `all` of `entries`.
abbrev pub attributes : List (ℕ × GattUuid)
attributes =
    (handle_primary_service, uuid128 nus_service_uuid)
    ∷ (handle_rx_char_decl, uuid16 gatt_uuid_characteristic)
    ∷ (handle_rx_value, uuid128 nus_rx_char_uuid)
    ∷ (handle_tx_char_decl, uuid16 gatt_uuid_characteristic)
    ∷ (handle_tx_value, uuid128 nus_tx_char_uuid)
    ∷ (handle_tx_cccd, uuid16 gatt_uuid_client_char_cfg)
    ∷ []

abbrev pub in_range : ℕ → ℕ → ℕ → Bool
in_range start end h = leb start h && leb h end

-- The loop of `entries`.
unfoldable pub within : ℕ → ℕ → List (ℕ × GattUuid) → List (ℕ × GattUuid)
within start end [] = []
within start end ((h, u) ∷ all) =
    let rest = within start end all in if in_range start end h then (h, u) ∷ rest else rest

unfoldable pub entries : ℕ → ℕ → List (ℕ × GattUuid)
entries start end = within start end attributes

-- An attribute's handle and value, if a test holds.
abbrev pub only_if : Bool → ℕ → List ℕ → List (ℕ × List ℕ)
only_if true handle value = (handle, value) ∷ []
only_if false handle value = []

unfoldable pub by_type : ℕ → ℕ → ℕ → List (ℕ × List ℕ)
by_type start end uuid =
    only_if (uuid == gatt_uuid_primary_service && in_range start end handle_primary_service)
      handle_primary_service nus_service_uuid
    ++ only_if (uuid == gatt_uuid_characteristic && in_range start end handle_rx_char_decl)
        handle_rx_char_decl (0x08 ∷ [] ++ le16 handle_rx_value ++ nus_rx_char_uuid)
    ++ only_if (uuid == gatt_uuid_characteristic && in_range start end handle_tx_char_decl)
        handle_tx_char_decl (0x20 ∷ [] ++ le16 handle_tx_value ++ nus_tx_char_uuid)
    ++ only_if (uuid == gatt_uuid_client_char_cfg && in_range start end handle_tx_cccd)
        handle_tx_cccd (0 ∷ 0 ∷ [])

unfoldable pub primary_services : ℕ → ℕ → List (ℕ × List ℕ)
primary_services start end =
    only_if (in_range start end handle_primary_service) handle_primary_service nus_service_uuid

-- The fields of `Conn` that the attributes have.
pub record Values : Type 0 where
  pub nus_cccd : ℕ
  pub rx_data : List ℕ
  pub rx_data_len : ℕ

-- The bytes that `read` writes to the front of `out`, if the handle can be read.
unfoldable pub read : ℕ → Values → Option (List ℕ)
read handle v =
    if handle == handle_tx_value
    then some []
    else if handle == handle_tx_cccd
    then some (v.nus_cccd ∷ 0 ∷ [])
    else none

-- The setting that a written value makes.
unfoldable pub cccd_of : List ℕ → ℕ
cccd_of [] = 0
cccd_of (x ∷ []) = 0
cccd_of (x ∷ y ∷ rest) = if not (bit_and x 0x01 == 0) then 0x01 else 0

-- The method's result, whether the event becomes `ConnEvent::Data`, and the values afterwards.
unfoldable pub write : ℕ → List ℕ → Values → Result ⊥ (Result Error (Unit {0}) × Bool × Values)
write handle value v =
    if handle == handle_rx_value
    then (do
      let len = min (length value) (length v.rx_data)
      part ← slice value 0 len
      rx_data ← copy_to v.rx_data 0 len part
      ok (ok tt, true, record v { rx_data = rx_data; rx_data_len = len }))
    else if handle == handle_tx_cccd
    then ok (ok tt, false, record v { nus_cccd = cccd_of value })
    else ok (err invalid_pdu, false, v)
