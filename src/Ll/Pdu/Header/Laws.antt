-- ===== src/Ll/Pdu/Header/Laws.antt =====
-- Encoding and decoding the advertising header.
use nrf_ble.Base.{ℕ, ◌/◌, ◌≤◌, ◌<◌, bit_and, bit, Bool, true, ◌&&◌}
use nrf_ble.Base.{◌≡◌, refl, arith, ◌==◌, ==→eq, &&-eq_true, lt_false, bit_injective}
use nrf_ble.Base.{holds_below, holds_below_at, for_bools, for_bools_at}
use nrf_ble.Base.Results.{ok}
use nrf_ble.Ll.Pdu.Header.{AdvHdr, encode, decode, has_bit}

abbrev first : ℕ → Bool → Bool → ℕ
first t c x = (encode (record { pdu_type = t; ch_sel = c; tx_add = x; rx_add = true; len = 0 })).0

abbrev second : ℕ → Bool → ℕ
second n r = (encode (record { pdu_type = 0; ch_sel = r; tx_add = r; rx_add = r; len = n })).1

abbrev first_back : ℕ → Bool → Bool → Bool
first_back t c x =
    bit_and (first t c x) 0x0F == t
    && bit (has_bit (first t c x) 0x40) == bit c
    && bit (has_bit (first t c x) 0x80) == bit x

abbrev second_back : ℕ → Bool → Bool
second_back n r = bit_and (second n r / 2) 0x3F == n && bit (has_bit (second n r) 0x01) == bit r

first_table : holds_below 8 (λ t. for_bools λ c. for_bools λ x. first_back t c x) ≡ true
unfolding holds_below for_bools encode
first_table = refl

second_table : holds_below 64 (λ n. for_bools λ r. second_back n r) ≡ true
unfolding holds_below for_bools encode
second_table = refl

first_at : (t : ℕ) (c x : Bool) → t < 8 → first_back t c x ≡ true
first_at t c x h = for_bools_at _ x (for_bools_at _ c (holds_below_at 8 _ t first_table h))

second_at : (n : ℕ) (r : Bool) → n < 64 → second_back n r ≡ true
second_at n r h = for_bools_at _ r (holds_below_at 64 _ n second_table h)

decode_fields :
    (b0 b1 t n : ℕ) (c x r : Bool)
    → bit_and b0 0x0F ≡ t
    → has_bit b0 0x40 ≡ c
    → has_bit b0 0x80 ≡ x
    → has_bit b1 0x01 ≡ r
    → bit_and (b1 / 2) 0x3F ≡ n
    → t ≤ 7
    → decode (b0, b1) ≡ ok (record { pdu_type = t; ch_sel = c; tx_add = x; rx_add = r; len = n })
unfolding decode
decode_fields b0 b1 t n c x r et ec ex er en h = rw (et, ec, ex, er, en, lt_false 7 t h)

-- Decoding an encoded header gives it back, for a PDU type up to 7 and a length below 64.
pub decode-encode : (h : AdvHdr) → h.pdu_type ≤ 7 → h.len < 64 → decode (encode h) ≡ ok h
unfolding encode
decode-encode h ht hl =
    let t = h.pdu_type in
    let c = h.ch_sel in
    let x = h.tx_add in
    let n = h.len in
    let r = h.rx_add in
    let (low, top) = &&-eq_true _ _ (first_at t c x (omega arith)) in
    let (kind, sel) = &&-eq_true _ _ low in
    let (size, recv) = &&-eq_true _ _ (second_at n r hl) in
    decode_fields (first t c x) (second n r) t n c x r (==→eq _ t kind) (bit_injective _ c sel)
      (bit_injective _ x top) (bit_injective _ r recv) (==→eq _ n size) ht
