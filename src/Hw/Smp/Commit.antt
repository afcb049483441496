-- ===== src/Hw/Smp/Commit.antt =====
-- A confirm value commits to its random value.
use nrf_ble.Base.{ℕ, suc, ◌≡◌, refl, sym, ap, ◌∙◌, arith, List, [], ◌∷◌, length, bit_xor}
use nrf_ble.Base.Bits.{bit_xor_injective}
use nrf_ble.Base.{◌++◌, length-append, replicate}
use nrf_ble.Base.Results.{Result, ok, ◌>>=◌}
use nrf_ble.Base.Slices.{slice_part, copy_to_fill, copy_to_end}
use nrf_ble.Hw.Smp.{C1Inputs, xor_block, c1, s1}

-- The sizes that the types of the inputs beside the random value state.
pub record HasInputSizes (i : C1Inputs) : Type 0 where
  pub preq_size : length i.preq ≡ 7
  pub pres_size : length i.pres ≡ 7
  pub ia_size : length i.ia ≡ 6
  pub ra_size : length i.ra ≡ 6

xor_block-ok :
    (xs ys : List ℕ)
    → length xs ≡ length ys
    → (zs : List ℕ) × (xor_block xs ys ≡ ok zs) × (length zs ≡ length xs)
unfolding xor_block
xor_block-ok [] [] h = ([], refl, refl)
xor_block-ok [] (y ∷ ys) h = absurd (omega arith)
xor_block-ok (x ∷ xs) [] h = absurd (omega arith)
xor_block-ok (x ∷ xs) (y ∷ ys) h =
    let (zs, e, size) = xor_block-ok xs ys (omega arith) in (bit_xor x y ∷ zs, rw e, ap suc size)

xor_block_injective :
    (xs xs' ys zs : List ℕ)
    → length xs ≡ length ys
    → length xs' ≡ length ys
    → xor_block xs ys ≡ ok zs
    → xor_block xs' ys ≡ ok zs
    → xs ≡ xs'
unfolding xor_block
xor_block_injective [] [] ys zs h h' e e' = refl
xor_block_injective [] (x ∷ xs') [] zs h h' e e' = absurd (omega arith)
xor_block_injective [] (x ∷ xs') (y ∷ ys) zs h h' e e' = absurd (omega arith)
xor_block_injective (x ∷ xs) xs' [] zs h h' e e' = absurd (omega arith)
xor_block_injective (x ∷ xs) [] (y ∷ ys) zs h h' e e' = absurd (omega arith)
xor_block_injective (x ∷ xs) (x' ∷ xs') (y ∷ ys) zs h h' e e' =
    let (us, f, _) = xor_block-ok xs ys (omega arith) in
    let (us', f', _) = xor_block-ok xs' ys (omega arith) in
    let g = rw f at e in
    let g' = rw f' at e' in
    let heads : bit_xor x y ≡ bit_xor x' y = cc in
    let tails : us ≡ us' = cc in
    let rest =
      xor_block_injective xs xs' ys us (omega arith) (omega arith) f (f' ∙ ap ok (sym tails)) in
    λ i. bit_xor_injective y x x' heads i ∷ rest i

pub same_value :
    (xs ys : List ℕ) (a b : Result ⊥ (List ℕ)) → a ≡ ok xs → b ≡ ok ys → a ≡ b → xs ≡ ys
same_value xs ys a b ha hb h = cc

module _ (encrypt : List ℕ → List ℕ → List ℕ) where
  -- `c1` once its two blocks have been assembled.
  abbrev mixed : List ℕ → List ℕ → List ℕ → List ℕ → Result ⊥ (List ℕ)
  mixed tk r p1 p2 = do
    res ← xor_block r p1
    res ← xor_block (encrypt tk res) p2
    ok (encrypt tk res)

  c1-mixed :
      (tk preq pres ia ra : List ℕ) (iat rat : ℕ)
      → length preq ≡ 7
      → length pres ≡ 7
      → length ia ≡ 6
      → length ra ≡ 6
      → (p1 : List ℕ) × (p2 : List ℕ) × (length p1 ≡ 16)
        × (length p2 ≡ 16)
        × ((r : List ℕ)
            → c1 encrypt tk
                (record { r = r; preq = preq; pres = pres; iat = iat; rat = rat; ia = ia; ra = ra })
              ≡ mixed tk r p1 p2)
  unfolding c1
  c1-mixed tk (q0 ∷ q1 ∷ q2 ∷ q3 ∷ q4 ∷ q5 ∷ q6 ∷ []) (p0 ∷ p1 ∷ p2 ∷ p3 ∷ p4 ∷ p5 ∷ p6 ∷ [])
        (a0 ∷ a1 ∷ a2 ∷ a3 ∷ a4 ∷ a5 ∷ []) (b0 ∷ b1 ∷ b2 ∷ b3 ∷ b4 ∷ b5 ∷ []) iat rat h0 h1 h2 h3 =
      (
        iat ∷ rat ∷ q0 ∷ q1 ∷ q2 ∷ q3 ∷ q4 ∷ q5 ∷ q6 ∷ p0 ∷ p1 ∷ p2 ∷ p3 ∷ p4 ∷ p5 ∷ p6 ∷ [],
        b0 ∷ b1 ∷ b2 ∷ b3 ∷ b4 ∷ b5 ∷ a0 ∷ a1 ∷ a2 ∷ a3 ∷ a4 ∷ a5 ∷ 0 ∷ 0 ∷ 0 ∷ 0 ∷ [],
        refl,
        refl,
        λ r. refl,
      )
  c1-mixed tk _ _ _ _ iat rat h0 h1 h2 h3 = absurd (omega arith)

module _ (encrypt : List ℕ → List ℕ → List ℕ)
    (block_size : (key block : List ℕ) → length block ≡ 16 → length (encrypt key block) ≡ 16) where
  -- On inputs of the sizes that their types state, `c1` has a value, which is a block.
  pub c1-total :
      (tk : List ℕ) (i : C1Inputs)
      → HasInputSizes i
      → length i.r ≡ 16
      → (v : List ℕ) × (c1 encrypt tk i ≡ ok v) × (length v ≡ 16)
  c1-total tk i sizes h =
      let (p1, p2, s1, s2, form) =
        c1-mixed encrypt tk i.preq i.pres i.ia i.ra i.iat i.rat sizes.preq_size sizes.pres_size
          sizes.ia_size sizes.ra_size in
      let (x, e, n) = xor_block-ok i.r p1 (omega arith) in
      let m = block_size tk x (omega arith) in
      let (z, f, k) = xor_block-ok (encrypt tk x) p2 (omega arith) in
      let one : mixed encrypt tk i.r p1 p2 ≡ ok (encrypt tk z) = rw (e, f) in
      (encrypt tk z, form i.r ∙ one, block_size tk z (omega arith))

  -- `s1` has a value on two blocks, of 16 bytes too.
  pub s1-total :
      (k r1 r2 : List ℕ)
      → length r1 ≡ 16
      → length r2 ≡ 16
      → (v : List ℕ) × (s1 encrypt k r1 r2 ≡ ok v) × (length v ≡ 16)
  unfolding s1
  s1-total k r1 r2 h h' =
      let (low, e, n) = slice_part {E = ⊥} r2 0 8 (omega arith) (omega arith) in
      let (high, f, m) = slice_part {E = ⊥} r1 0 8 (omega arith) (omega arith) in
      let l = length-append low high in
      (
        encrypt k (low ++ high),
        rw (
          e,
          copy_to_fill {E = ⊥} [] (replicate 16 0) 0 8 refl low (omega arith) (omega arith),
          f,
          copy_to_end {E = ⊥} low (replicate 8 0) high 8 16 (omega arith) (omega arith)
              (omega arith),
        ),
        block_size k (low ++ high) (omega arith),
      )

module _ (encrypt : List ℕ → List ℕ → List ℕ)
    (block_size : (key block : List ℕ) → length block ≡ 16 → length (encrypt key block) ≡ 16)
    (decryptable : (key b b' : List ℕ) → encrypt key b ≡ encrypt key b' → b ≡ b') where
  -- If the block cipher keeps the size of a block and can be decrypted, `c1` has a value for every
  -- random value of 16 bytes, of 16 bytes too, and no other random value has the same one with the
  -- same other inputs.
  pub c1_injective :
      (tk r r' : List ℕ) (i : C1Inputs)
      → HasInputSizes i
      → length r ≡ 16
      → length r' ≡ 16
      → c1 encrypt tk (record i { r = r }) ≡ c1 encrypt tk (record i { r = r' })
      → (r ≡ r') × (v : List ℕ) × (c1 encrypt tk (record i { r = r }) ≡ ok v) × (length v ≡ 16)
  c1_injective tk r r' i sizes h h' same =
      let (p1, p2, s1, s2, form) =
        c1-mixed encrypt tk i.preq i.pres i.ia i.ra i.iat i.rat sizes.preq_size sizes.pres_size
          sizes.ia_size sizes.ra_size in
      let (x, e, n) = xor_block-ok r p1 (omega arith) in
      let (x', e', n') = xor_block-ok r' p1 (omega arith) in
      let m = block_size tk x (omega arith) in
      let m' = block_size tk x' (omega arith) in
      let (z, f, k) = xor_block-ok (encrypt tk x) p2 (omega arith) in
      let (z', f', k') = xor_block-ok (encrypt tk x') p2 (omega arith) in
      let one : mixed encrypt tk r p1 p2 ≡ ok (encrypt tk z) = rw (e, f) in
      let two : mixed encrypt tk r' p1 p2 ≡ ok (encrypt tk z') = rw (e', f') in
      let v : c1 encrypt tk (record i { r = r }) ≡ ok (encrypt tk z) = form r ∙ one in
      let v' : c1 encrypt tk (record i { r = r' }) ≡ ok (encrypt tk z') = form r' ∙ two in
      let ends = same_value (encrypt tk z) (encrypt tk z') _ _ v v' same in
      let blocks = decryptable tk z z' ends in
      let outer =
        xor_block_injective (encrypt tk x) (encrypt tk x') p2 z (omega arith) (omega arith) f
          (f' ∙ ap ok (sym blocks)) in
      let inner = decryptable tk x x' outer in
      (
        xor_block_injective r r' p1 x (omega arith) (omega arith) e (e' ∙ ap ok (sym inner)),
        encrypt tk z,
        v,
        block_size tk z (omega arith),
      )
