-- ===== src/Ll/Whiten/Stream.antt =====
-- Whitening is the exclusive or with a key stream that depends on the channel alone.
use native.Mathlib.Nat.{pow-suc, pow-le-pow_right, div-div-eq-div-mul, mod-eq_of_lt}
use native.Mathlib.Numerals.{add-one}
use nrf_ble.Base.{ℕ, zero, suc, ◌+◌, ◌*◌, ◌/◌, ◌%◌, ◌^◌, ◌≤◌, ◌<◌, bit_and, bit_or, bit_xor}
use nrf_ble.Base.{◌≡◌, refl, sym, ap, ◌∙◌, arith}
use nrf_ble.Base.Bits.{bit_and_mask, bit_or_low, bit_xor_step}
use nrf_ble.Ll.Whiten.{key_bit, next_lfsr, whiten_bits}

-- The register after `n` rounds, and the `n` key bits from it on, lowest first.
pub advance : ℕ → ℕ → ℕ
advance zero lfsr = lfsr
advance (suc n) lfsr = advance n (next_lfsr lfsr)

unfoldable pub key_bits : ℕ → ℕ → ℕ
key_bits zero lfsr = 0
key_bits (suc n) lfsr = key_bits n (next_lfsr lfsr) * 2 + key_bit lfsr

-- `n` low bits of a value, each mixed with a key bit.
mix : ℕ → ℕ → ℕ → ℕ
mix zero lfsr v = 0
mix (suc n) lfsr v = mix n (next_lfsr lfsr) (v / 2) * 2 + (v % 2 + key_bit lfsr) % 2

key_bit-lt : (lfsr : ℕ) → key_bit lfsr < 2
unfolding key_bit
key_bit-lt lfsr = omega (arith, bit_and_mask 1 (lfsr / 2 ^ 6 % 256))

pub key_bits-lt : (n lfsr : ℕ) → key_bits n lfsr < 2 ^ n
unfolding key_bits
key_bits-lt zero lfsr = omega arith
key_bits-lt (suc n) lfsr =
    omega (arith, key_bits-lt n (next_lfsr lfsr), key_bit-lt lfsr, pow-suc 2 n)

xor_bit : (a b : ℕ) → a < 2 → b < 2 → bit_xor a b ≡ (a + b) % 2
xor_bit a b ha hb =
    let ea : a / 2 ≡ 0 = omega arith in
    let eb : b / 2 ≡ 0 = omega arith in bit_xor_step a b ∙ rw (ea, eb) (omega arith)

power-next : (i : ℕ) → 2 ^ (i + 1) ≡ 2 ^ i * 2
power-next i = ap (λ (t : ℕ). 2 ^ t) (add-one i) ∙ pow-suc 2 i

halve : (b i : ℕ) → b / 2 ^ i / 2 ≡ b / 2 ^ (i + 1)
halve b i = div-div-eq-div-mul b (2 ^ i) 2 ∙ ap (λ (t : ℕ). b / t) (sym (power-next i))

mix-xor : (n lfsr v : ℕ) → v < 2 ^ n → mix n lfsr v ≡ bit_xor v (key_bits n lfsr)
unfolding mix key_bits
mix-xor zero lfsr zero h = refl
mix-xor zero lfsr (suc v) h = absurd (omega arith)
mix-xor (suc n) lfsr v h =
    let rest = mix-xor n (next_lfsr lfsr) (v / 2) (omega (arith, pow-suc 2 n)) in
    let key = key_bits n (next_lfsr lfsr) * 2 + key_bit lfsr in
    let half : key / 2 ≡ key_bits n (next_lfsr lfsr) = omega (arith, key_bit-lt lfsr) in
    let low : key % 2 ≡ key_bit lfsr = omega (arith, key_bit-lt lfsr) in
    sym (bit_xor_step v key ∙ rw (half, low, rest))

bit_times : (x p m : ℕ) → x < 2 → p < m → x * p < m
bit_times zero p m hx h = omega arith
bit_times (suc zero) p m hx h = omega arith
bit_times (suc (suc x)) p m hx h = absurd (omega arith)

one_more : (i x out : ℕ) → x < 2 → out < 2 ^ i → x * 2 ^ i + out < 2 ^ (i + 1)
one_more i zero out hx h = omega (arith, power-next i)
one_more i (suc zero) out hx h = omega (arith, power-next i)
one_more i (suc (suc x)) out hx h = absurd (omega arith)

regroup : (rest x out i : ℕ) → rest * 2 ^ (i + 1) + (x * 2 ^ i + out) ≡ (rest * 2 + x) * 2 ^ i + out
regroup rest x out i = omega (arith, ap (λ (t : ℕ). rest * t) (power-next i))

mixed_bit :
    (i byte lfsr : ℕ)
    → i ≤ 7
    → bit_xor (bit_and (byte / 2 ^ i) 1) (key_bit lfsr) * 2 ^ i % 256
      ≡ (byte / 2 ^ i % 2 + key_bit lfsr) % 2 * 2 ^ i
mixed_bit i byte lfsr h =
    let x = (byte / 2 ^ i % 2 + key_bit lfsr) % 2 in
    let fits : 2 ^ i ≤ 2 ^ 7 = pow-le-pow_right (omega arith) h in
    rw
      (
        bit_and_mask 1 (byte / 2 ^ i),
        xor_bit (byte / 2 ^ i % 2) (key_bit lfsr) (omega arith) (key_bit-lt lfsr),
      )
      (mod-eq_of_lt (bit_times x (2 ^ i) 256 (omega arith) (omega arith)))

whiten_bits-mix :
    (n i byte out lfsr : ℕ)
    → out < 2 ^ i
    → i + n ≤ 8
    → whiten_bits n i byte out lfsr ≡ (mix n lfsr (byte / 2 ^ i) * 2 ^ i + out, advance n lfsr)
unfolding whiten_bits mix advance
whiten_bits-mix zero i byte out lfsr h room =
    let e : out ≡ 0 * 2 ^ i + out = omega arith in ap (λ (t : ℕ). (t, lfsr)) e
whiten_bits-mix (suc n) i byte out lfsr h room =
    let x = (byte / 2 ^ i % 2 + key_bit lfsr) % 2 in
    let rest = mix n (next_lfsr lfsr) (byte / 2 ^ i / 2) in
    let mixed = mixed_bit i byte lfsr (omega arith) in
    let out' : bit_or out (x * 2 ^ i) ≡ x * 2 ^ i + out = bit_or_low i x out h in
    let wide : x * 2 ^ i + out < 2 ^ (i + 1) = one_more i x out (omega arith) h in
    let later =
      whiten_bits-mix n (i + 1) byte (x * 2 ^ i + out) (next_lfsr lfsr) wide (omega arith) in
    rw (mixed, out', later, ← halve byte i)
      (ap (λ (t : ℕ). (t, advance n (next_lfsr lfsr))) (regroup rest x out i))

pub whiten_byte :
    (byte lfsr : ℕ)
    → byte < 256
    → whiten_bits 8 0 byte 0 lfsr ≡ (bit_xor byte (key_bits 8 lfsr), advance 8 lfsr)
whiten_byte byte lfsr h =
    let loop = whiten_bits-mix 8 0 byte 0 lfsr (omega arith) (omega arith) in
    let whole : byte / 2 ^ 0 ≡ byte = omega arith in
    loop ∙ rw (whole, mix-xor 8 lfsr byte h) (ap (λ (t : ℕ). (t, advance 8 lfsr)) (omega arith))
