-- ===== src/Hci.antt =====
-- Packets of the host controller interface and their framing: src/hci.rs. A payload array and the
-- framer's buffer have `payload_max` elements.
pub mod Framing
pub mod RoundTrip
pub mod Handler
use nrf_ble.Base.{ℕ, ◌+◌, ◌*◌, ◌/◌, ◌%◌, ◌^◌, ◌==◌, leb, bit_and, bit_or, ◌&&◌, ◌||◌, if◌then◌else◌}
use nrf_ble.Base.{List, length, replicate, Option, none, some}
use nrf_ble.Base.Results.{Result, ok, ◌>>=◌, index, put, copy_to}

abbrev pub hci_command : ℕ
hci_command = 1

abbrev pub hci_acl_data : ℕ
hci_acl_data = 2

abbrev pub hci_event : ℕ
hci_event = 4

abbrev pub payload_max : ℕ
payload_max = 260

pub record HciPacket : Type 0 where
  pub packet_type : ℕ
  pub payload : List ℕ
  pub len : ℕ

unfoldable pub command : ℕ → ℕ → List ℕ → Result ⊥ HciPacket
command ogf ocf params = do
  let n = length params
  p ← put (replicate payload_max 0) 0 (bit_and ocf 0xFF)
  p ← put p 1 (bit_or (bit_and (ocf / 2 ^ 8) 0x03) (bit_and ogf 0x3F * 2 ^ 2))
  p ← put p 2 (n % 256)
  p ← copy_to p 3 (3 + n) params
  ok (record { packet_type = hci_command; payload = p; len = 3 + n })

unfoldable pub event : ℕ → List ℕ → Result ⊥ HciPacket
event code payload = do
  let n = length payload
  p ← put (replicate payload_max 0) 0 code
  p ← put p 1 (n % 256)
  p ← copy_to p 2 (2 + n) payload
  ok (record { packet_type = hci_event; payload = p; len = 2 + n })

unfoldable pub acl : ℕ → List ℕ → Result ⊥ HciPacket
acl handle payload = do
  let n = length payload
  p ← put (replicate payload_max 0) 0 (bit_and handle 0x0FFF % 256)
  p ← put p 1 (handle / 2 ^ 8 % 256)
  p ← put p 2 (bit_and n 0xFF)
  p ← put p 3 (n / 2 ^ 8 % 256)
  p ← copy_to p 4 (4 + n) payload
  ok (record { packet_type = hci_acl_data; payload = p; len = 4 + n })

pub record H4Framer : Type 0 where
  pub packet_type : Option ℕ
  pub expected : ℕ
  pub buf : List ℕ
  pub buf_len : ℕ

unfoldable pub new_framer : H4Framer
new_framer = record { packet_type = none; expected = 0; buf = replicate payload_max 0; buf_len = 0 }

-- The length that the header in the buffer announces, for each packet type.
unfoldable pub announced : ℕ → List ℕ → Result ⊥ ℕ
announced kind buf =
    if kind == hci_acl_data
    then (do low ← index buf 2; high ← index buf 3; ok (4 + (low + high * 2 ^ 8)))
    else if kind == hci_event
    then (do n ← index buf 1; ok (2 + n))
    else (do n ← index buf 2; ok (3 + n))

-- The size of the header that holds the length.
unfoldable pub header_len : ℕ → ℕ
header_len kind = if kind == hci_acl_data then 4 else if kind == hci_event then 2 else 3

-- The arms for a command, an event and ACL data: the same code around the header's size and the
-- place of the length.
unfoldable pub collect : ℕ → H4Framer → ℕ → Result ⊥ (H4Framer × Option HciPacket)
collect kind f byte = do
  buf ← put f.buf f.buf_len byte
  let buf_len = f.buf_len + 1
  expected ← if buf_len == header_len kind then announced kind buf else ok f.expected
  if buf_len == expected && leb (header_len kind) expected
      then ok (
        record { packet_type = none; expected = 0; buf = buf; buf_len = buf_len },
        some (record { packet_type = kind; payload = buf; len = buf_len }),
      )
      else ok (
        record { packet_type = some kind; expected = expected; buf = buf; buf_len = buf_len },
        none,
      )

-- The framer afterwards, and the packet if it is complete.
unfoldable pub feed : H4Framer → ℕ → Result ⊥ (H4Framer × Option HciPacket)
feed f byte = elim f.packet_type [
  | none ↦
      if byte == hci_command || byte == hci_acl_data || byte == hci_event
      then ok (
        record { packet_type = some byte; expected = f.expected; buf = f.buf; buf_len = 0 },
        none,
      )
      else ok (f, none)
  | some kind ↦
      if kind == hci_command || kind == hci_event || kind == hci_acl_data
      then collect kind f byte
      else ok (f, none)
]
