-- ===== src/Ll/Whiten/Laws.antt =====
-- What `whiten` promises: it is its own inverse, it works byte by byte, and it tells the channels
-- apart.
use nrf_ble.Base.{ℕ, zero, suc, ◌/◌, ◌%◌, ◌<◌, bit_xor}
use nrf_ble.Base.{◌≡◌, refl, sym, ap, ◌∙◌, List, [], ◌∷◌, ◌++◌, length, All, IsByte}
use nrf_ble.Base.{true, ◌==◌, ==→eq, holds_below, holds_below_at}
use nrf_ble.Base.Bits.{bit_xor_cancel_right, bit_xor-lt, bit_xor_injective, bit_xor_comm}
use nrf_ble.Ll.Crc.{reflect, reflect_loop}
use nrf_ble.Ll.Whiten.{whitening_init, key_bit, next_lfsr, whiten_bits, whiten_loop, whiten}
use nrf_ble.Ll.Whiten.Stream.{advance, key_bits, key_bits-lt, whiten_byte}

-- The key stream of a register, one byte for each of `n` bytes, and its use on a buffer.
unfoldable pub key_stream : ℕ → ℕ → List ℕ
key_stream zero lfsr = []
key_stream (suc n) lfsr = key_bits 8 lfsr ∷ key_stream n (advance 8 lfsr)

unfoldable pub xor_bytes : List ℕ → List ℕ → List ℕ
xor_bytes [] ks = []
xor_bytes (x ∷ xs) [] = x ∷ xs
xor_bytes (x ∷ xs) (k ∷ ks) = bit_xor x k ∷ xor_bytes xs ks

whiten_loop-cons :
    (x : ℕ) (xs : List ℕ) (lfsr : ℕ)
    → x < 256
    → whiten_loop (x ∷ xs) lfsr ≡ bit_xor x (key_bits 8 lfsr) ∷ whiten_loop xs (advance 8 lfsr)
unfolding whiten_loop
whiten_loop-cons x xs lfsr h = rw (whiten_byte x lfsr h)

whiten_loop-key_stream :
    (xs : List ℕ) (lfsr : ℕ)
    → All IsByte xs
    → whiten_loop xs lfsr ≡ xor_bytes xs (key_stream (length xs) lfsr)
unfolding key_stream xor_bytes
whiten_loop-key_stream [] lfsr h = unfold whiten_loop in refl
whiten_loop-key_stream (x ∷ xs) lfsr h =
    whiten_loop-cons x xs lfsr h.0
    ∙ ap (λ t. bit_xor x (key_bits 8 lfsr) ∷ t) (whiten_loop-key_stream xs (advance 8 lfsr) h.1)

-- `whiten` is the exclusive or of the buffer with a key stream that depends only on the channel.
pub whiten-key_stream :
    (buf : List ℕ) (channel : ℕ)
    → All IsByte buf
    → whiten buf channel ≡ xor_bytes buf (key_stream (length buf) (whitening_init channel))
unfolding whiten
whiten-key_stream buf channel h = whiten_loop-key_stream buf (whitening_init channel) h

mixed_byte : (x lfsr : ℕ) → x < 256 → bit_xor x (key_bits 8 lfsr) < 256
mixed_byte x lfsr h = bit_xor-lt 8 x (key_bits 8 lfsr) h (key_bits-lt 8 lfsr)

whiten_loop-IsByte : (xs : List ℕ) (lfsr : ℕ) → All IsByte xs → All IsByte (whiten_loop xs lfsr)
whiten_loop-IsByte [] lfsr h = unfold whiten_loop in tt
whiten_loop-IsByte (x ∷ xs) lfsr h =
    rw (whiten_loop-cons x xs lfsr h.0)
      (mixed_byte x lfsr h.0, whiten_loop-IsByte xs (advance 8 lfsr) h.1)

pub whiten-IsByte : (buf : List ℕ) (channel : ℕ) → All IsByte buf → All IsByte (whiten buf channel)
unfolding whiten
whiten-IsByte buf channel h = whiten_loop-IsByte buf (whitening_init channel) h

length-whiten_loop : (xs : List ℕ) (lfsr : ℕ) → length (whiten_loop xs lfsr) ≡ length xs
unfolding whiten_loop
length-whiten_loop [] lfsr = refl
length-whiten_loop (x ∷ xs) lfsr = ap suc (length-whiten_loop xs (whiten_bits 8 0 x 0 lfsr).1)

pub length-whiten : (buf : List ℕ) (channel : ℕ) → length (whiten buf channel) ≡ length buf
unfolding whiten
length-whiten buf channel = length-whiten_loop buf (whitening_init channel)

whiten_loop_twice :
    (xs : List ℕ) (lfsr : ℕ) → All IsByte xs → whiten_loop (whiten_loop xs lfsr) lfsr ≡ xs
whiten_loop_twice [] lfsr h = unfold whiten_loop in refl
whiten_loop_twice (x ∷ xs) lfsr h =
    let key = key_bits 8 lfsr in
    ap (λ t. whiten_loop t lfsr) (whiten_loop-cons x xs lfsr h.0)
    ∙ whiten_loop-cons (bit_xor x key) (whiten_loop xs (advance 8 lfsr)) lfsr
        (mixed_byte x lfsr h.0)
    ∙ rw (bit_xor_cancel_right key x, whiten_loop_twice xs (advance 8 lfsr) h.1)

-- Whitening a buffer twice on one channel gives the buffer back.
pub whiten-whiten :
    (buf : List ℕ) (channel : ℕ) → All IsByte buf → whiten (whiten buf channel) channel ≡ buf
unfolding whiten
whiten-whiten buf channel h = whiten_loop_twice buf (whitening_init channel) h

-- A packet with a gap at one byte: what whitening does around the gap, and the key byte at it.
pub record Gap (whitened : ℕ → List ℕ) : Type 0 where
  pub before : List ℕ
  pub key : ℕ
  pub after : List ℕ
  pub before_bytes : All IsByte before
  pub key_byte : key < 256
  pub after_bytes : All IsByte after
  pub filled : (x : ℕ) → x < 256 → whitened x ≡ before ++ bit_xor x key ∷ after

whiten_loop-Gap :
    (xs ys : List ℕ) (lfsr : ℕ)
    → All IsByte xs
    → All IsByte ys
    → Gap (λ x. whiten_loop (xs ++ x ∷ ys) lfsr)
whiten_loop-Gap [] ys lfsr hx hy = record {
  before = [];
  key = key_bits 8 lfsr;
  after = whiten_loop ys (advance 8 lfsr);
  before_bytes = tt;
  key_byte = key_bits-lt 8 lfsr;
  after_bytes = whiten_loop-IsByte ys (advance 8 lfsr) hy;
  filled = λ x h. whiten_loop-cons x ys lfsr h;
}
whiten_loop-Gap (b ∷ xs) ys lfsr hx hy =
    let rest = whiten_loop-Gap xs ys (advance 8 lfsr) hx.1 hy in
    record {
      before = bit_xor b (key_bits 8 lfsr) ∷ rest.before;
      key = rest.key;
      after = rest.after;
      before_bytes = (mixed_byte b lfsr hx.0, rest.before_bytes);
      key_byte = rest.key_byte;
      after_bytes = rest.after_bytes;
      filled = λ x h.
          whiten_loop-cons b (xs ++ x ∷ ys) lfsr hx.0
          ∙ ap (λ t. bit_xor b (key_bits 8 lfsr) ∷ t) (rest.filled x h);
    }

pub whiten-Gap :
    (xs ys : List ℕ) (channel : ℕ)
    → All IsByte xs
    → All IsByte ys
    → Gap (λ x. whiten (xs ++ x ∷ ys) channel)
unfolding whiten
whiten-Gap xs ys channel hx hy = whiten_loop-Gap xs ys (whitening_init channel) hx hy

channel_table : holds_below 64 (λ c. reflect (key_bits 8 (whitening_init c) / 2 % 64) 6 == c) ≡ true
unfolding holds_below reflect reflect_loop key_bits whitening_init key_bit next_lfsr
channel_table = refl

channel_of_key : (c : ℕ) → c < 64 → reflect (key_bits 8 (whitening_init c) / 2 % 64) 6 ≡ c
channel_of_key c h = ==→eq _ c (holds_below_at 64 _ c channel_table h)

-- On two different channels below 64 (the radio has 40), a packet of a byte or more is whitened in
-- two different ways: they differ in the first byte.
pub whiten_channels :
    (x : ℕ) (xs : List ℕ) (c d : ℕ)
    → IsByte x
    → c < 64
    → d < 64
    → whiten (x ∷ xs) c ≡ whiten (x ∷ xs) d
    → c ≡ d
unfolding whiten
whiten_channels x xs c d hx hc hd h =
    let lc = whitening_init c in
    let ld = whitening_init d in
    let both = sym (whiten_loop-cons x xs lc hx) ∙ h ∙ whiten_loop-cons x xs ld hx in
    let first : bit_xor x (key_bits 8 lc) ≡ bit_xor x (key_bits 8 ld) = cc in
    let keys =
      bit_xor_injective x (key_bits 8 lc) (key_bits 8 ld)
        (bit_xor_comm _ x ∙ first ∙ bit_xor_comm x _) in
    sym (channel_of_key c hc) ∙ ap (λ (k : ℕ). reflect (k / 2 % 64) 6) keys ∙ channel_of_key d hd
