-- ===== src/Sim.antt =====
-- The virtual radio: src/sim.rs. A packet's byte array has `max_packet_len` elements.
pub mod Loopback
use nrf_ble.Base.{ℕ, ◌+◌, ◌-◌, List, ◌++◌, length, take, drop, replicate, ltb, if◌then◌else◌}
use nrf_ble.Base.Results.{Result, ok, err, Error, buffer_too_small, invalid_length, crc_mismatch}
use nrf_ble.Base.Results.{◌>>=◌, slice, copy_to}
use nrf_ble.Ll.Crc.{append_crc, check}
use nrf_ble.Ll.Whiten.{whiten}

abbrev pub max_packet_len : ℕ
max_packet_len = 260

pub record Packet : Type 0 where
  pub channel : ℕ
  pub bytes : List ℕ
  pub len : ℕ

pub record RxPacket : Type 0 where
  pub pdu : List ℕ
  pub len : ℕ

pub record VirtualRadio : Type 0 where
  pub channel : ℕ

-- `[0u8; MAX_PACKET_LEN]`
unfoldable pub zeros : List ℕ
zeros = replicate max_packet_len 0

unfoldable pub transmit : VirtualRadio → List ℕ → Result Error Packet
transmit radio pdu = if ltb max_packet_len (length pdu + 3) then err buffer_too_small else (do
  bytes ← copy_to zeros 0 (length pdu) pdu
  tail ← slice bytes (length pdu) (length bytes)
  tail ← append_crc pdu tail
  let bytes = take (length pdu) bytes ++ tail
  let total = length pdu + 3
  sent ← slice bytes 0 total
  ok (record {
    channel = radio.channel;
    bytes = whiten sent radio.channel ++ drop total bytes;
    len = total;
  }))

unfoldable pub receive : VirtualRadio → Packet → Result Error RxPacket
receive radio packet = if ltb packet.len 3 then err invalid_length else (do
  heard ← slice packet.bytes 0 packet.len
  buf ← copy_to zeros 0 packet.len heard
  body ← slice buf 0 packet.len
  let buf = whiten body radio.channel ++ drop packet.len buf
  body ← slice buf 0 packet.len
  if check body then ok (record { pdu = buf; len = packet.len - 3 }) else err crc_mismatch)

unfoldable pub loopback : List ℕ → ℕ → Result Error RxPacket
loopback pdu channel = do
  let radio : VirtualRadio = record { channel = channel }
  packet ← transmit radio pdu
  receive radio packet
