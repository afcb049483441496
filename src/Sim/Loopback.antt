-- ===== src/Sim/Loopback.antt =====
-- What is sent arrives, and a corruption within one byte is noticed.
use nrf_ble.Base.{
  ℕ, zero, if◌then◌else◌, drop-append, ◌+◌, ◌-◌, ◌≤◌, ◌≡◌, ◌≢◌, refl, sym, ap, ◌∙◌, arith,
}
use nrf_ble.Base.{List, [], ◌∷◌, ◌++◌, length, lt_false, take, drop, All, IsByte, Bool, true, false}
use nrf_ble.Base.{length-append, length-drop, take-append, length-replicate, append_assoc}
use nrf_ble.Base.{All-append, bit_xor}
use nrf_ble.Base.Bits.{bit_xor-lt, bit_xor_injective}
use nrf_ble.Base.Results.{ok, err, crc_mismatch}
use nrf_ble.Base.Slices.{slice_prefix, slice_suffix, copy_to-append}
use nrf_ble.Ll.Crc.{check}
use nrf_ble.Ll.Crc.Packets.{
  crc_bytes, crc_bytes-IsByte, crc_bytes-accepted, append_crc-ok, check_one_byte,
}
use nrf_ble.Ll.Whiten.{whiten}
use nrf_ble.Ll.Whiten.Laws.{whiten-whiten, length-whiten, whiten-Gap}
use nrf_ble.Sim.{VirtualRadio, Packet, RxPacket, zeros, transmit, receive, loopback}

length-zeros : length zeros ≡ 260
unfolding zeros
length-zeros = length-replicate 260 zero

-- A packet of `len` bytes whose array starts with the given ones.
module _ (radio : VirtualRadio) (sent rest : List ℕ) (channel : ℕ) (long : 3 ≤ length sent)
    (short : length sent ≤ 260) where
  abbrev heard : List ℕ
  heard = whiten sent radio.channel

  abbrev arriving : Packet
  arriving = record { channel = channel; bytes = sent ++ rest; len = length sent }

  receive_lem : receive radio arriving ≡ (
      if check heard
      then ok (record { pdu = heard ++ drop (length sent) zeros; len = length sent - 3 })
      else err crc_mismatch)
  unfolding receive
  receive_lem =
      let z = length-zeros in
      let pad = drop (length sent) zeros in
      rw (
        lt_false (length sent) 3 long,
        slice_prefix sent rest (length sent) refl,
        copy_to-append [] zeros sent 0 (length sent) refl (omega arith) (omega arith),
        slice_prefix sent pad (length sent) refl,
        drop-append (length sent) sent pad refl,
        slice_prefix heard pad (length sent) (length-whiten sent radio.channel),
      )

abbrev frame : List ℕ → List ℕ
frame pdu = pdu ++ crc_bytes pdu

length-frame : (pdu : List ℕ) → length (frame pdu) ≡ length pdu + 3
length-frame pdu = length-append pdu (crc_bytes pdu)

abbrev on_air : VirtualRadio → List ℕ → Packet
on_air radio pdu = record {
  channel = radio.channel;
  bytes = whiten (frame pdu) radio.channel ++ drop 3 (drop (length pdu) zeros);
  len = length pdu + 3;
}

transmit_lem :
    (radio : VirtualRadio) (pdu : List ℕ)
    → All IsByte pdu
    → length pdu ≤ 257
    → transmit radio pdu ≡ ok (on_air radio pdu)
unfolding transmit
transmit_lem radio pdu h fits =
    let z = length-zeros in
    let tail = drop (length pdu) zeros in
    let room = length-drop (length pdu) zeros in
    let behind = drop 3 tail in
    rw (
      lt_false 260 (length pdu + 3) (omega arith),
      copy_to-append [] zeros pdu 0 (length pdu) refl (omega arith) (omega arith),
      slice_suffix pdu tail (length pdu) (length (pdu ++ tail)) refl refl,
      append_crc-ok pdu tail h (omega arith),
      take-append (length pdu) pdu tail refl,
      ← append_assoc pdu (crc_bytes pdu) behind,
      slice_prefix (frame pdu) behind (length pdu + 3) (length-frame pdu),
      drop-append (length pdu + 3) (frame pdu) behind (length-frame pdu),
    )

-- A PDU of at most 257 bytes that is sent on a channel and received on the same channel arrives
-- whole: the length and the bytes that were sent.
pub loopback_arrives :
    (pdu : List ℕ) (channel : ℕ)
    → All IsByte pdu
    → length pdu ≤ 257
    → (rx : RxPacket) × (loopback pdu channel ≡ ok rx)
      × (rx.len ≡ length pdu)
      × (take rx.len rx.pdu ≡ pdu)
unfolding loopback
loopback_arrives pdu channel h fits =
    let radio : VirtualRadio = record { channel = channel } in
    let sent = whiten (frame pdu) channel in
    let rest = drop 3 (drop (length pdu) zeros) in
    let framed = length-frame pdu in
    let size : length sent ≡ length pdu + 3 = length-whiten (frame pdu) channel ∙ framed in
    let back : whiten sent channel ≡ frame pdu =
      whiten-whiten (frame pdu) channel
        (All-append IsByte pdu (crc_bytes pdu) h (crc_bytes-IsByte pdu h)) in
    let received = receive_lem radio sent rest channel (omega arith) (omega arith) in
    let pad = drop (length sent) zeros in
    (
      record { pdu = frame pdu ++ pad; len = length pdu },
      rw (transmit_lem radio pdu h fits, ← size, received, back, crc_bytes-accepted pdu h)
          (ap (λ (n : ℕ). ok (record { pdu = frame pdu ++ pad; len = n })) (omega arith)),
      refl,
      rw (append_assoc pdu (crc_bytes pdu) pad)
          (take-append (length pdu) pdu (crc_bytes pdu ++ pad) refl),
    )

abbrev pub packet_of : ℕ → List ℕ → List ℕ → Packet
packet_of channel sent rest = record { channel = channel; bytes = sent ++ rest; len = length sent }

accepted_length :
    (radio : VirtualRadio) (p : Packet) (rx : RxPacket) → receive radio p ≡ ok rx → 3 ≤ p.len
unfolding receive
accepted_length radio p rx h = ground arith

accepted : (b : Bool) (v rx : RxPacket) → (if b then ok v else err crc_mismatch) ≡ ok rx → b ≡ true
accepted true v rx e = refl
accepted false v rx e = cc

-- If the radio accepts a packet, it reports a CRC mismatch for the packet that differs from it in
-- one byte on air, whatever lies in the array behind the packet.
pub receive_one_byte :
    (radio : VirtualRadio) (channel : ℕ) (before after rest : List ℕ) (x y : ℕ) (rx : RxPacket)
    → All IsByte before
    → All IsByte after
    → IsByte x
    → IsByte y
    → x ≢ y
    → length (before ++ x ∷ after) ≤ 260
    → receive radio (packet_of channel (before ++ x ∷ after) rest) ≡ ok rx
    → receive radio (packet_of channel (before ++ y ∷ after) rest) ≡ err crc_mismatch
receive_one_byte radio channel before after rest x y rx hb ha hx hy differ short got =
    let sent = before ++ x ∷ after in
    let changed = before ++ y ∷ after in
    let long = accepted_length radio (packet_of channel sent rest) rx got in
    let sx = length-append before (x ∷ after) in
    let sy = length-append before (y ∷ after) in
    let gap = whiten-Gap before after radio.channel hb ha in
    let good : check (whiten sent radio.channel) ≡ true =
      accepted (check (whiten sent radio.channel)) _ rx
        (sym (receive_lem radio sent rest channel long short) ∙ got) in
    let good' = rw (gap.filled x hx) at good in
    let bad : check (whiten changed radio.channel) ≡ false = rw (gap.filled y hy) (
      check_one_byte gap.before gap.after (bit_xor x gap.key) (bit_xor y gap.key) gap.before_bytes
        gap.after_bytes (bit_xor-lt 8 x gap.key hx gap.key_byte)
        (bit_xor-lt 8 y gap.key hy gap.key_byte) (λ e. differ (bit_xor_injective gap.key x y e))
        good') in
    receive_lem radio changed rest channel (omega arith) (omega arith) ∙ rw bad
