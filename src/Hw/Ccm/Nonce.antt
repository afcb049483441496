-- ===== src/Hw/Ccm/Nonce.antt =====
-- The configuration that `setup` writes, and what it determines.
use nrf_ble.Base.{
  ℕ, ◌/◌, ◌%◌, ◌^◌, ◌<◌, ◌≡◌, refl, sym, ap, ◌∙◌, arith, List, [], ◌∷◌, ◌++◌, length, length-append,
  take, take-append, drop, drop_all, drop-append, replicate,
}
use nrf_ble.Base.Results.{Result, ok}
use nrf_ble.Base.Slices.{copy_to_fill, put_fill}
use nrf_ble.Hw.Ccm.{Ccm, setup}

-- The five low bytes of a counter.
abbrev pub counter_bytes : ℕ → List ℕ
counter_bytes n =
    n % 256 ∷ n / 2 ^ 8 % 256 ∷ n / 2 ^ 16 % 256 ∷ n / 2 ^ 24 % 256 ∷ n / 2 ^ 32 % 256 ∷ []

abbrev pub behind : ℕ → ℕ → List ℕ
behind n direction = 0x01 ∷ [] ++ counter_bytes n ++ direction ∷ replicate 22 0

regroup :
    (key : List ℕ) (n direction : ℕ)
    → key
        ++ 0x01 ∷ []
        ++ counter_bytes n
        ++ direction ∷ []
        ++ replicate 6 0
        ++ 0 ∷ []
        ++ 0 ∷ []
        ++ replicate 14 0
        ++ []
      ≡ key ++ behind n direction
regroup [] n direction = refl
regroup (k ∷ key) n direction = ap (λ xs. k ∷ xs) (regroup key n direction)

pub setup-value :
    (key : List ℕ) (n direction : ℕ) (c : Ccm)
    → length key ≡ 16
    → length c.cfg ≡ 45
    → setup key n direction c ≡ ok (record { cfg = key ++ behind n direction })
unfolding setup
setup-value key n direction c hk hc =
    let zeros6 : List ℕ = replicate 6 0 in
    let zeros14 : List ℕ = replicate 14 0 in
    let p1 = key ++ 0x01 ∷ [] in
    let p2 = p1 ++ counter_bytes n in
    let p3 = p2 ++ direction ∷ [] in
    let p4 = p3 ++ zeros6 in
    let p5 = p4 ++ 0 ∷ [] in
    let p6 = p5 ++ 0 ∷ [] in
    let l1 = length-append key (0x01 ∷ []) in
    let l2 = length-append p1 (counter_bytes n) in
    let l3 = length-append p2 (direction ∷ []) in
    let l4 = length-append p3 zeros6 in
    let l5 = length-append p4 (0 ∷ []) in
    let l6 = length-append p5 (0 ∷ []) in
    rw (
      copy_to_fill {E = ⊥} [] c.cfg 0 16 refl key (omega arith) (omega arith),
      put_fill {E = ⊥} key c.cfg 16 17 hk 0x01 refl (omega arith),
      copy_to_fill {E = ⊥} p1 c.cfg 17 22 (omega arith) (counter_bytes n) refl (omega arith),
      put_fill {E = ⊥} p2 c.cfg 22 23 (omega arith) direction refl (omega arith),
      copy_to_fill {E = ⊥} p3 c.cfg 23 29 (omega arith) zeros6 refl (omega arith),
      put_fill {E = ⊥} p4 c.cfg 29 30 (omega arith) 0 refl (omega arith),
      put_fill {E = ⊥} p5 c.cfg 30 31 (omega arith) 0 refl (omega arith),
      copy_to_fill {E = ⊥} p6 c.cfg 31 45 (omega arith) zeros14 refl (omega arith),
      drop_all 45 c.cfg (omega arith),
      regroup key n direction,
    )

cfg_of : (a b : Ccm) (m m' : Result ⊥ Ccm) → m ≡ ok a → m' ≡ ok b → m ≡ m' → a.cfg ≡ b.cfg
cfg_of a b m m' h h' same = let f : a ≡ b = cc in ap (λ (c : Ccm). c.cfg) f

byte : ℕ → List ℕ → ℕ
byte i xs = elim (drop i xs) [ [] ↦ 0 | x ∷ _ ↦ x ]

-- With counters below 2 ^ 40, two calls of `setup` configure the encryption block alike only if the
-- key, the packet counter and the direction are the same. The keys and the configurations have their
-- sizes, and then `setup` does not panic.
pub setup_injective :
    (key key' : List ℕ) (n n' direction direction' : ℕ) (c c' : Ccm)
    → length key ≡ 16
    → length key' ≡ 16
    → length c.cfg ≡ 45
    → length c'.cfg ≡ 45
    → n < 2 ^ 40
    → n' < 2 ^ 40
    → setup key n direction c ≡ setup key' n' direction' c'
    → (key ≡ key')
      × (n ≡ n')
      × (direction ≡ direction')
      × (d : Ccm) × (setup key n direction c ≡ ok d)
unfolding byte
setup_injective key key' n n' direction direction' c c' hk hk' hc hc' small small' same =
    let value = setup-value key n direction c hk hc in
    let value' = setup-value key' n' direction' c' hk' hc' in
    let cfgs : key ++ behind n direction ≡ key' ++ behind n' direction' =
      cfg_of (record { cfg = key ++ behind n direction })
        (record { cfg = key' ++ behind n' direction' }) _ _ value value' same in
    let keys =
      sym (take-append 16 key (behind n direction) hk)
      ∙ ap (take 16) cfgs
      ∙ take-append 16 key' (behind n' direction') hk' in
    let rest =
      sym (drop-append 16 key (behind n direction) hk)
      ∙ ap (drop 16) cfgs
      ∙ drop-append 16 key' (behind n' direction') hk' in
    let b0 : n % 256 ≡ n' % 256 = ap (byte 1) rest in
    let b1 : n / 2 ^ 8 % 256 ≡ n' / 2 ^ 8 % 256 = ap (byte 2) rest in
    let b2 : n / 2 ^ 16 % 256 ≡ n' / 2 ^ 16 % 256 = ap (byte 3) rest in
    let b3 : n / 2 ^ 24 % 256 ≡ n' / 2 ^ 24 % 256 = ap (byte 4) rest in
    let b4 : n / 2 ^ 32 % 256 ≡ n' / 2 ^ 32 % 256 = ap (byte 5) rest in
    (keys, omega arith, ap (byte 6) rest, record { cfg = key ++ behind n direction }, value)
