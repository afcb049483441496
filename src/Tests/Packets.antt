-- ===== src/Tests/Packets.antt =====
-- The CRC, whitening and the virtual radio.
use nrf_ble.Base.{ℕ, ◌+◌, ◌*◌, ◌^◌, ◌≡◌, ◌↔◌, arith, List, [], ◌∷◌, ◌++◌, true, length, take}
use nrf_ble.Base.Results.{ok}
use nrf_ble.Ll.Crc.{crc24, check}
use nrf_ble.Ll.Crc.Packets.{check_iff}
use nrf_ble.Ll.Whiten.{whiten}
use nrf_ble.Ll.Whiten.Laws.{whiten-whiten}
use nrf_ble.Sim.{VirtualRadio, RxPacket, loopback}
use nrf_ble.Sim.Loopback.{loopback_arrives}

abbrev pdu : List ℕ
pdu = 0x42 ∷ 0x03 ∷ 0x01 ∷ 0x02 ∷ 0x03 ∷ []

check_iff_example :
    (check (pdu ++ 1 ∷ 2 ∷ 3 ∷ []) ≡ true) ↔ (crc24 pdu ≡ 1 + 2 * 2 ^ 8 + 3 * 2 ^ 16)
check_iff_example = check_iff pdu 1 2 3 (omega arith) (omega arith) (omega arith) (omega arith)

whiten-whiten_example : whiten (whiten pdu 37) 37 ≡ pdu
whiten-whiten_example = whiten-whiten pdu 37 (omega arith)

abbrev channel : ℕ
channel = 38

loopback_arrives_example :
    (rx : RxPacket) × (loopback pdu 37 ≡ ok rx) × (rx.len ≡ length pdu) × (take rx.len rx.pdu ≡ pdu)
loopback_arrives_example = loopback_arrives pdu 37 (omega arith) (omega arith)

abbrev radio : VirtualRadio
radio = record { channel = 37 }

-- The whitened bytes on air.
abbrev air : List ℕ
air = 142 ∷ 212 ∷ 149 ∷ []
