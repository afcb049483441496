-- ===== src/Hw/Radio/Poll.antt =====
-- The length that a poll reports for a packet. Advertising PDUs have their length from the second bit
-- of the second byte on, data PDUs from the first; the driver reads both as the former.
use nrf_ble.Base.{
  ℕ, zero, suc, ◌+◌, ◌-◌, ◌/◌, ◌≤◌, ◌≡◌, refl, ap, sym, ◌∙◌, arith, bit_and, List, [], ◌∷◌, ◌++◌,
  length, length-append, length-take, take, drop, le→leb, eq→==, ne→==, ==→eq, Bool, true, false,
  ◌==◌, if◌then◌else◌, some, Bool-cases, inl, inr,
}
use nrf_ble.Base.Bits.{bit_and_mask}
use nrf_ble.Base.Results.{Result, ok, err, Error, invalid_length, ◌>>=◌, slice, guard, ◌>>◌}
use nrf_ble.Base.Slices.{slice_prefix}
use nrf_ble.Ll.Pdu.Header
use nrf_ble.Ll.Pdu.Header.{AdvHdr, has_bit}
use nrf_ble.Ll.Pdu.Adv
use nrf_ble.Ll.Pdu.Adv.{AdvPdu}
use nrf_ble.Ll.Pdu.Channel
use nrf_ble.Ll.Pdu.Channel.{DataPdu}
use nrf_ble.Hw.Radio.{Radio, ended, receive_poll, pdu_len}

-- The buffer behind a reception.
abbrev pub filled : List ℕ → List ℕ → List ℕ
filled bytes buf = bytes ++ drop (length bytes) buf

-- A packet that is not longer than the buffer is written to its front, and its second byte gives the
-- length.
pub receive_poll-ended :
    {E : Type 0} (b0 b1 : ℕ) (payload buf : List ℕ) (rssi : ℕ) (r : Radio)
    → 2 + length payload ≤ length buf
    → receive_poll {E = E} (ended true (b0 ∷ b1 ∷ payload) rssi) buf r
      ≡ ok (ok (some (pdu_len b1)), filled (b0 ∷ b1 ∷ payload) buf, record r { rssisample = rssi })
unfolding receive_poll
receive_poll-ended b0 b1 payload buf rssi r h =
    let bytes = b0 ∷ b1 ∷ payload in
    let n = length bytes in
    rw
      (le→leb 0 n (omega arith), le→leb n (length buf) (omega arith), eq→== n (n - 0) (omega arith))
      refl

-- Behind a test, a result comes from the branch that has one, and its guard holds.
guard-holds :
    {A B : Type 0} (b : Bool) (e : Error) (x : A) (f : A → Bool) (rest : A → Result Error B) (a : B)
    → ((if b then err e else ok x) >>= (λ x. guard (f x) invalid_length >> rest x)) ≡ ok a
    → f x ≡ true
guard-holds true e x f rest a h = cc
guard-holds false e x f rest a h = elim (Bool-cases (f x)) [
  | inl holds ↦ holds
  | inr fails ↦
      let no : err invalid_length ≡ ok a =
        ap (λ b. guard b invalid_length >> rest x) (sym fails) ∙ h in
      cc
]

-- What a decoded advertising PDU's second byte says.
pdu_len-advertising :
    (b0 b1 : ℕ) (payload : List ℕ) (pdu : AdvPdu)
    → Adv.decode (b0 ∷ b1 ∷ payload) ≡ ok pdu
    → pdu_len b1 ≡ 2 + length payload
unfolding Adv.decode Header.decode pdu_len
pdu_len-advertising b0 b1 payload pdu h =
    let same = guard-holds _ _ _ (λ t. length payload == AdvHdr.len t) _ pdu h in
    ap (λ (n : ℕ). 2 + n) (sym (==→eq (length payload) _ same))

take-append_lem : (n : ℕ) (xs ys : List ℕ) → n ≤ length xs → take n (xs ++ ys) ≡ take n xs
take-append_lem zero xs ys h = refl
take-append_lem (suc n) [] ys h = absurd (omega arith)
take-append_lem (suc n) (x ∷ xs) ys h = ap (λ t. x ∷ t) (take-append_lem n xs ys (omega arith))

-- A slice of the buffer after a reception is the front of the packet.
slice_front :
    {E : Type 0} (bytes buf : List ℕ) (n : ℕ)
    → n ≤ length bytes
    → slice {E = E} (filled bytes buf) 0 n ≡ ok (take n bytes)
slice_front bytes buf n h =
    let whole = length-append bytes (drop (length bytes) buf) in
    let same : n - 0 ≡ n = omega arith in
    rw (le→leb 0 n (omega arith), le→leb n (length (filled bytes buf)) (omega arith))
      (ap (λ (k : ℕ). ok (take k (filled bytes buf))) same
        ∙ ap ok (take-append_lem n bytes (drop (length bytes) buf) h))

-- An advertising packet that fits the buffer of 257 bytes and can be decoded is received whole: the
-- poll reports its length, and the buffer starts with it.
pub receive_poll-advertising :
    (bytes buf : List ℕ) (rssi : ℕ) (r : Radio) (pdu : AdvPdu)
    → Adv.decode bytes ≡ ok pdu
    → length bytes ≤ length buf
    → (receive_poll {E = Error} (ended true bytes rssi) buf r
        ≡ ok (ok (some (length bytes)), filled bytes buf, record r { rssisample = rssi }))
      × (slice {E = Error} (filled bytes buf) 0 (length bytes) ≡ ok bytes)
unfolding Adv.decode
receive_poll-advertising [] buf rssi r pdu h fits = cc
receive_poll-advertising (b0 ∷ []) buf rssi r pdu h fits = cc
receive_poll-advertising (b0 ∷ b1 ∷ payload) buf rssi r pdu h fits =
    let bytes = b0 ∷ b1 ∷ payload in
    let len : pdu_len b1 ≡ length bytes = pdu_len-advertising b0 b1 payload pdu h ∙ omega arith in
    (
      receive_poll-ended b0 b1 payload buf rssi r (omega arith)
          ∙ ap (λ (n : ℕ). ok (ok (some n), filled bytes buf, record r { rssisample = rssi })) len,
      slice_prefix bytes (drop (length bytes) buf) (length bytes) refl,
    )

-- The packet of a data PDU with this payload.
abbrev pub data_packet : ℕ → List ℕ → List ℕ
data_packet b0 payload = b0 ∷ length payload ∷ payload

-- A data packet with 1 to 63 bytes of payload, in a buffer that it fits, can be decoded; but the poll
-- reports 2 bytes and half of the payload for it, and what stands in the buffer up to there cannot.
pub receive_poll-data :
    {E : Type 0} (b0 : ℕ) (payload buf : List ℕ) (rssi : ℕ) (r : Radio)
    → 1 ≤ length payload
    → length payload ≤ 63
    → 2 + length payload ≤ length buf
    → (p : DataPdu) × (cut : List ℕ) × (Channel.decode (data_packet b0 payload) ≡ ok p)
      × (p.payload ≡ payload)
      × (receive_poll {E = E} (ended true (data_packet b0 payload) rssi) buf r
          ≡ ok (
            ok (some (2 + length payload / 2)),
            filled (data_packet b0 payload) buf,
            record r { rssisample = rssi },
          ))
      × (slice {E = E} (filled (data_packet b0 payload) buf) 0 (2 + length payload / 2) ≡ ok cut)
      × (Channel.decode cut ≡ err invalid_length)
unfolding Channel.decode pdu_len
receive_poll-data b0 payload buf rssi r some_data few fits =
    let bytes = data_packet b0 payload in
    let n = length payload in
    let whole : bit_and n 0x3F ≡ n = bit_and_mask 6 n ∙ omega arith in
    let half : bit_and (n / 2) 0x3F ≡ n / 2 = bit_and_mask 6 (n / 2) ∙ omega arith in
    let part = length-take (n / 2) payload in
    let two : 2 + n / 2 ≡ suc (suc (n / 2)) = omega arith in
    (
      record {
        llid = bit_and b0 0x03;
        nesn = has_bit b0 0x04;
        sn = has_bit b0 0x08;
        md = has_bit b0 0x10;
        payload = payload;
      },
      b0 ∷ n ∷ take (n / 2) payload,
      rw (whole, eq→== n n refl) refl,
      refl,
      receive_poll-ended b0 n payload buf rssi r (omega arith)
          ∙ ap (λ (k : ℕ). ok (ok (some (2 + k)), filled bytes buf, record r { rssisample = rssi }))
              half,
      slice_front bytes buf (2 + n / 2) (omega arith) ∙ ap (λ (k : ℕ). ok (take k bytes)) two,
      rw (whole, ne→== (length (take (n / 2) payload)) n (λ e. omega arith)) refl,
    )
