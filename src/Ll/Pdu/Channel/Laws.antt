-- ===== src/Ll/Pdu/Channel/Laws.antt =====
-- The round trip of data channel PDUs.
use nrf_ble.Base.{
  ℕ, suc, ◌+◌, ◌%◌, ◌≤◌, ◌<◌, ◌≡◌, refl, ap, ◌∙◌, arith, bit_and, bit, Bool, true, ◌&&◌,
}
use nrf_ble.Base.{List, [], ◌∷◌, ◌++◌, length, drop, ◌==◌, ==→eq, eq→==, &&-eq_true, lt_false}
use nrf_ble.Base.{bit_injective, holds_below, holds_below_at, for_bools, for_bools_at}
use nrf_ble.Base.Bits.{bit_and_mask}
use nrf_ble.Base.Results.{ok}
use nrf_ble.Base.Slices.{put_fill, copy_to_fill}
use nrf_ble.Ll.Pdu.Header.{has_bit}
use nrf_ble.Ll.Pdu.Channel.{DataPdu, flags, decode, encode}

abbrev flags_back : ℕ → Bool → Bool → Bool → Bool
flags_back l n s m =
    bit_and (flags l n s m) 0x03 == l
    && bit (has_bit (flags l n s m) 0x04) == bit n
    && (bit (has_bit (flags l n s m) 0x08) == bit s && bit (has_bit (flags l n s m) 0x10) == bit m)

flags_table :
    holds_below 4 (λ l. for_bools λ n. for_bools λ s. for_bools λ m. flags_back l n s m) ≡ true
unfolding holds_below for_bools
flags_table = refl

flags_at : (l : ℕ) (n s m : Bool) → l < 4 → flags_back l n s m ≡ true
flags_at l n s m h =
    for_bools_at _ m (for_bools_at _ s (for_bools_at _ n (holds_below_at 4 _ l flags_table h)))

encode-ok :
    (p : DataPdu) (out : List ℕ)
    → length p.payload ≤ 63
    → 2 + length p.payload ≤ length out
    → encode p out
      ≡ ok (
        2 + length p.payload,
        flags p.llid p.nesn p.sn p.md
            ∷ length p.payload
            ∷ (p.payload ++ drop (2 + length p.payload) out),
      )
unfolding encode
encode-ok p out fits room =
    let n = length p.payload in
    let b0 = flags p.llid p.nesn p.sn p.md in
    let size : bit_and (n % 256) 0x3F ≡ n = bit_and_mask 6 (n % 256) ∙ omega arith in
    rw (
      lt_false 63 n fits,
      lt_false (length out) (2 + n) room,
      put_fill [] out 0 1 refl b0 refl (omega arith),
      size,
      put_fill (b0 ∷ []) out 1 2 refl n refl (omega arith),
      copy_to_fill (b0 ∷ n ∷ []) out 2 (2 + n) refl p.payload refl room,
    )

-- A data PDU with a two-bit LLID and at most 63 payload bytes, written into an output with room for
-- it, is decoded from the written bytes to itself; the bytes behind are kept.
pub decode-encode_data :
    (p : DataPdu) (out : List ℕ)
    → p.llid < 4
    → length p.payload ≤ 63
    → 2 + length p.payload ≤ length out
    → (sent : List ℕ) × (encode p out ≡ ok (length sent, sent ++ drop (length sent) out))
      × (decode sent ≡ ok p)
unfolding decode
decode-encode_data p out hl fits room =
    let n = length p.payload in
    let two : 2 + n ≡ suc (suc n) = omega arith in
    let sent = flags p.llid p.nesn p.sn p.md ∷ n ∷ p.payload in
    let (low, high) = &&-eq_true _ _ (flags_at p.llid p.nesn p.sn p.md hl) in
    let (kind, next) = &&-eq_true _ _ low in
    let (seq, more) = &&-eq_true _ _ high in
    let llid = ==→eq _ p.llid kind in
    let nesn = bit_injective _ p.nesn next in
    let sn = bit_injective _ p.sn seq in
    let md = bit_injective _ p.md more in
    let len : bit_and n 0x3F ≡ n = bit_and_mask 6 n ∙ omega arith in
    (
      sent,
      encode-ok p out fits room ∙ ap (λ (k : ℕ). ok (k, sent ++ drop k out)) two,
      rw (len, eq→== n n refl)
          (λ i.
            ok
              (record { llid = llid i; nesn = nesn i; sn = sn i; md = md i; payload = p.payload })),
    )
