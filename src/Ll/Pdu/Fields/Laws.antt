-- ===== src/Ll/Pdu/Fields/Laws.antt =====
-- Round trips of the small fields.
use nrf_ble.Base.{ℕ, ◌+◌, ◌*◌, ◌/◌, ◌%◌, ◌^◌, ◌<◌, bit_and, bit_or, some}
use nrf_ble.Base.{◌≡◌, ◌∙◌, arith, IsByte}
use nrf_ble.Base.Bits.{bit_and_mask, bit_or_low}
use nrf_ble.Base.Results.{ok}
use nrf_ble.Ll.Pdu.Fields.{AuxPtr, encode_aux, decode_aux}
use nrf_ble.Ll.Pdu.Fields.{PeriodicAdvInfo, encode_periodic, decode_periodic}

-- `r | (q << 6)` and its two parts, for six bits `r`.
packed : (r q : ℕ) → bit_or (bit_and r 0x3F) (bit_and q 0x03 * 2 ^ 6) ≡ q % 4 * 64 + r % 64
packed r q = rw (bit_and_mask 6 r, bit_and_mask 2 q) (bit_or_low 6 (q % 4) (r % 64) (omega arith))

-- A pointer with a channel below 64, an offset below 1024 and a PHY below 4 survives encoding.
pub decode_aux-encode_aux :
    (p : AuxPtr) → p.channel < 64 → p.offset < 1024 → p.phy < 4 → decode_aux (encode_aux p) ≡ p
unfolding decode_aux encode_aux
decode_aux-encode_aux p hc ho hp =
    let b0 = p.offset % 4 * 64 + p.channel % 64 in
    let b1 : bit_and (p.offset / 2 ^ 2) 0xFF ≡ p.offset / 4 =
      bit_and_mask 8 (p.offset / 4) ∙ omega arith in
    let b2 : bit_and p.phy 0x03 ≡ p.phy = bit_and_mask 2 p.phy ∙ omega arith in
    let top : b0 / 2 ^ 6 ≡ p.offset % 4 = omega arith in
    let channel : bit_and b0 0x3F ≡ p.channel = bit_and_mask 6 b0 ∙ omega arith in
    let offset : bit_or (b0 / 2 ^ 6) (p.offset / 4 * 2 ^ 2) ≡ p.offset =
      rw top (bit_or_low 2 (p.offset / 4) (p.offset % 4) (omega arith) ∙ omega arith) in
    rw (packed p.channel p.offset, b1, b2, b2)
      (λ i. record { channel = channel i; offset = offset i; phy = p.phy })

-- Three bytes with the six reserved bits clear survive decoding.
pub encode_aux-decode_aux :
    (a b c : ℕ) → IsByte a → IsByte b → c < 4 → encode_aux (decode_aux (a, b, c)) ≡ (a, b, c)
unfolding decode_aux encode_aux
encode_aux-decode_aux a b c ha hb hc =
    let offset = b * 4 + a / 64 in
    let joined : bit_or (a / 2 ^ 6) (b * 2 ^ 2) ≡ offset = bit_or_low 2 b (a / 64) (omega arith) in
    let channel : bit_and a 0x3F ≡ a % 64 = bit_and_mask 6 a in
    let phy : bit_and c 0x03 ≡ c = bit_and_mask 2 c ∙ omega arith in
    let b0 : offset % 4 * 64 + a % 64 % 64 ≡ a = omega arith in
    let b1 : bit_and (offset / 2 ^ 2) 0xFF ≡ b = bit_and_mask 8 (offset / 4) ∙ omega arith in
    rw (joined, channel, packed (a % 64) offset, phy, phy, b0, b1)

-- Periodic advertising information with a 16-bit interval survives encoding.
pub decode_periodic-encode_periodic :
    (p : PeriodicAdvInfo) → p.interval < 2 ^ 16 → decode_periodic (encode_periodic p) ≡ ok (some p)
unfolding decode_periodic encode_periodic
decode_periodic-encode_periodic p h =
    let whole : bit_and p.interval 0xFF % 256 + p.interval / 2 ^ 8 % 256 * 2 ^ 8 ≡ p.interval =
      rw (bit_and_mask 8 p.interval) (omega arith) in
    λ i. ok (some (record { adi = p.adi; interval = whole i; adva_type = p.adva_type }))
