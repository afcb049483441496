-- ===== src/Ll/Crc/Packets.antt =====
-- What `append_crc` and `check` promise about whole packets.
use nrf_ble.Base.{ℕ, ◌+◌, ◌*◌, ◌/◌, ◌%◌, ◌^◌, ◌≤◌, ◌<◌}
use nrf_ble.Base.{
  ◌≡◌, ◌≢◌, ◌↔◌, refl, sym, ap, ◌∙◌, arith, List, [], ◌∷◌, ◌++◌, length, All, IsByte,
}
use nrf_ble.Base.{true, false, take, drop, length-append}
use nrf_ble.Base.Results.{ok}
use nrf_ble.Ll.Crc.{
  crc_byte, crc_loop, reflect, reflect_loop, crc24_with_init, crc24, append_crc, check,
}
use nrf_ble.Ll.Crc.Residue.{crc_byte-lt, crc_byte_low}
use nrf_ble.Ll.Crc.Detect.{crc_byte_injective, crc_loop_one_byte}

crc_loop-lt : (xs : List ℕ) (c : ℕ) → All IsByte xs → c < 2 ^ 24 → crc_loop c xs < 2 ^ 24
unfolding crc_loop
crc_loop-lt [] c hx hc = hc
crc_loop-lt (x ∷ xs) c hx hc = crc_loop-lt xs (crc_byte c x) hx.1 (crc_byte-lt c x hc hx.0)

crc_loop-append : (xs ys : List ℕ) (c : ℕ) → crc_loop c (xs ++ ys) ≡ crc_loop (crc_loop c xs) ys
unfolding crc_loop
crc_loop-append [] ys c = refl
crc_loop-append (x ∷ xs) ys c = crc_loop-append xs ys (crc_byte c x)

crc24_loop : (xs : List ℕ) → crc24 xs ≡ crc_loop 0xAAAAAA xs
unfolding crc24 crc24_with_init reflect reflect_loop
crc24_loop xs = refl

pub crc24-lt : (pdu : List ℕ) → All IsByte pdu → crc24 pdu < 2 ^ 24
crc24-lt pdu h = rw (crc24_loop pdu) (crc_loop-lt pdu 0xAAAAAA h (omega arith))

crc_byte_front : (c x t : ℕ) → c < 2 ^ 24 → x < 256 → c ≡ t * 256 + x → crc_byte c x ≡ t
crc_byte_front c x t hc hx e = ap (crc_byte c) (omega arith) ∙ crc_byte_low c hc ∙ omega arith

-- A register below 2 ^ 16 shows the register before it.
crc_byte_back : (c x t : ℕ) → c < 2 ^ 24 → x < 256 → t < 2 ^ 16 → crc_byte c x ≡ t → c ≡ t * 256 + x
crc_byte_back c x t hc hx ht h =
    let before = t * 256 + x in
    let same = crc_byte_front before x t (omega arith) hx refl in
    crc_byte_injective c before x hc (omega arith) hx (h ∙ sym same)

three_bytes :
    (c a b e : ℕ)
    → c < 2 ^ 24
    → a < 256
    → b < 256
    → e < 256
    → (crc_loop c (a ∷ b ∷ e ∷ []) ≡ 0) ↔ (c ≡ a + b * 2 ^ 8 + e * 2 ^ 16)
unfolding crc_loop
three_bytes c a b e hc ha hb he =
    let c1 = crc_byte c a in
    let c2 = crc_byte c1 b in
    let h1 = crc_byte-lt c a hc ha in
    let h2 = crc_byte-lt c1 b h1 hb in
    (
      λ zeroed.
          let e2 : c2 ≡ 0 * 256 + e = crc_byte_back c2 e 0 h2 he (omega arith) zeroed in
          let e1 : c1 ≡ c2 * 256 + b = crc_byte_back c1 b c2 h1 hb (omega arith) refl in
          let e0 : c ≡ c1 * 256 + a = crc_byte_back c a c1 hc ha (omega arith) refl in omega arith,
      λ sum.
          let e1 : c1 ≡ b + e * 256 = crc_byte_front c a (b + e * 256) hc ha (omega arith) in
          let e2 : c2 ≡ e = crc_byte_front c1 b e h1 hb (omega arith) in
          crc_byte_front c2 e 0 h2 he (omega arith),
    )

crc24-append : (pdu tail : List ℕ) → crc24 (pdu ++ tail) ≡ crc_loop (crc24 pdu) tail
crc24-append pdu tail =
    rw (crc24_loop pdu, crc24_loop (pdu ++ tail)) (crc_loop-append pdu tail 0xAAAAAA)

-- For a PDU and three bytes, `check` accepts the PDU followed by the bytes exactly when they are
-- the PDU's CRC, lowest byte first.
pub check_iff :
    (pdu : List ℕ) (a b e : ℕ)
    → All IsByte pdu
    → IsByte a
    → IsByte b
    → IsByte e
    → (check (pdu ++ a ∷ b ∷ e ∷ []) ≡ true) ↔ (crc24 pdu ≡ a + b * 2 ^ 8 + e * 2 ^ 16)
unfolding check
check_iff pdu a b e hp ha hb he =
    let tail = a ∷ b ∷ e ∷ [] in
    let whole = three_bytes (crc24 pdu) a b e (crc24-lt pdu hp) ha hb he in
    let long = length-append pdu tail in
    rw (crc24-append pdu tail) (λ h. whole.0 (ground arith), λ h. ground (arith, whole.1 h))

-- The CRC of a PDU as the three bytes that follow it on air.
abbrev pub crc_bytes : List ℕ → List ℕ
crc_bytes pdu = crc24 pdu % 256 ∷ crc24 pdu / 2 ^ 8 % 256 ∷ crc24 pdu / 2 ^ 16 ∷ []

pub append_crc-ok :
    (pdu out : List ℕ)
    → All IsByte pdu
    → 3 ≤ length out
    → append_crc pdu out ≡ ok (crc_bytes pdu ++ drop 3 out)
unfolding append_crc
append_crc-ok pdu [] hp h = absurd (omega arith)
append_crc-ok pdu (x ∷ []) hp h = absurd (omega arith)
append_crc-ok pdu (x ∷ y ∷ []) hp h = absurd (omega arith)
append_crc-ok pdu (x ∷ y ∷ z ∷ out) hp h = ground (arith, crc24-lt pdu hp)

crc24_bytes : (c : ℕ) → c ≡ c % 256 + c / 2 ^ 8 % 256 * 2 ^ 8 + c / 2 ^ 16 * 2 ^ 16
crc24_bytes c = omega arith

pub crc_bytes-accepted : (pdu : List ℕ) → All IsByte pdu → check (pdu ++ crc_bytes pdu) ≡ true
crc_bytes-accepted pdu hp =
    let c = crc24 pdu in
    let small = crc24-lt pdu hp in
    (check_iff pdu (c % 256) (c / 2 ^ 8 % 256) (c / 2 ^ 16) hp (omega arith) (omega arith)
        (omega arith)).1
      (crc24_bytes c)

pub crc_bytes-IsByte : (pdu : List ℕ) → All IsByte pdu → All IsByte (crc_bytes pdu)
crc_bytes-IsByte pdu hp = omega (arith, crc24-lt pdu hp)

-- On an output of three bytes or more, `append_crc` overwrites the first three and keeps the others,
-- and the PDU followed by those three bytes passes `check`.
pub check-append_crc :
    (pdu out : List ℕ)
    → All IsByte pdu
    → 3 ≤ length out
    → (out' : List ℕ) × (append_crc pdu out ≡ ok out')
      × (check (pdu ++ take 3 out') ≡ true)
      × (drop 3 out' ≡ drop 3 out)
check-append_crc pdu out hp h =
    (crc_bytes pdu ++ drop 3 out, append_crc-ok pdu out hp h, crc_bytes-accepted pdu hp, refl)

-- If `check` accepts a packet, it rejects every packet that differs from it in exactly one byte.
pub check_one_byte :
    (before after : List ℕ) (x y : ℕ)
    → All IsByte before
    → All IsByte after
    → IsByte x
    → IsByte y
    → x ≢ y
    → check (before ++ x ∷ after) ≡ true
    → check (before ++ y ∷ after) ≡ false
unfolding check
check_one_byte before after x y hb ha hx hy differ accepted =
    let one = crc_loop_one_byte before after 0xAAAAAA x y hb ha (omega arith) hx hy in
    ground (
      arith,
      one,
      length-append before (x ∷ after),
      length-append before (y ∷ after),
      crc24_loop (before ++ x ∷ after),
      crc24_loop (before ++ y ∷ after),
    )
