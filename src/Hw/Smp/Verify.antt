-- ===== src/Hw/Smp/Verify.antt =====
-- The check of a peer's random value against its confirm value.
use nrf_ble.Base.{
  ℕ, ◌≤◌, ◌<◌, ◌≡◌, ◌≢◌, sym, ap, ◌∙◌, arith, lt_false, if◌then◌else◌, List, ◌∷◌, length, false,
  not, Bool-cases, ltb-cases, ◌⊎◌, inl, inr, bytes_eq, bytes_eq→eq, bytes_eq_refl,
}
use nrf_ble.Base.Results.{Result, ok, err, slice}
use nrf_ble.Base.Slices.{slice_part}
use nrf_ble.Hw.Smp.{c1, s1}
use nrf_ble.Hw.Smp.Commit.{c1-total, s1-total, c1_injective}
use nrf_ble.Hw.Smp.State.{
  Smp, SmpError, invalid_smp_pdu, confirm_mismatch, waiting_start_enc, tk, smp_pairing_random,
}
use nrf_ble.Hw.Smp.Pairing.{inputs_with, handle_random}
use nrf_ble.Hw.Smp.Sizes.{IsSized, pdu17-block, copy_whole, tk-total, inputs-HasInputSizes}

-- The states after a random value that has been refused, and after one that has been accepted.
abbrev pub refused : Smp → List ℕ → Smp
refused s random = record s { peer_random = random; pairing_failed = 6 }

abbrev pub accepted : Smp → List ℕ → List ℕ → Smp
accepted s random stk = record s {
  peer_random = random;
  stk = stk;
  state = waiting_start_enc;
  pairing_failed = 0;
}

differs : (xs ys : List ℕ) → bytes_eq xs ys ≡ false → xs ≢ ys
differs xs ys h same = let e = bytes_eq_refl ys in cc

module _ (encrypt : List ℕ → List ℕ → List ℕ)
    (block_size : (key block : List ℕ) → length block ≡ 16 → length (encrypt key block) ≡ 16) where
  -- What a random value is checked with.
  abbrev pub Checked : List ℕ → Smp → List ℕ → List ℕ → List ℕ → Type 0
  Checked body s random expected stk =
      (key : List ℕ) × (slice {E = ⊥} body 1 17 ≡ ok random)
      × (tk s ≡ ok key)
      × (c1 encrypt key (inputs_with random s) ≡ ok expected)
      × (s1 encrypt key s.own_random random ≡ ok stk)
      × (length random ≡ 16)

  pub handle_random-checks :
      (body : List ℕ) (s : Smp)
      → IsSized s
      → 17 ≤ length body
      → (random : List ℕ) × (expected : List ℕ) × (stk : List ℕ) × Checked body s random expected
          stk
        × (length stk ≡ 16)
        × (handle_random encrypt body s ≡ (
            if not (bytes_eq expected s.peer_confirm)
            then ok (err confirm_mismatch, refused s random)
            else ok (ok (smp_pairing_random ∷ s.own_random), accepted s random stk)))
  unfolding handle_random tk
  handle_random-checks body s sized long =
      let (random, e, n) = slice_part {E = ⊥} body 1 17 (omega arith) long in
      let (key, f, _) = tk-total s in
      let (expected, g, _) =
        c1-total encrypt block_size key (inputs_with random s) (inputs-HasInputSizes random s sized)
          n in
      let (stk, h, m) =
        s1-total encrypt block_size key s.own_random random sized.own_random_size n in
      (
        random,
        expected,
        stk,
        (key, e, f, g, h, n),
        m,
        rw (
          lt_false (length body) 17 long,
          e,
          copy_whole s.peer_random random 16 sized.peer_random_size n,
          f,
          g,
          h,
          pdu17-block 4 s.own_random sized.own_random_size,
        ),
      )

  -- If the block cipher keeps the size of a block, and on a state with arrays of their sizes,
  -- `handle_random` never panics, and it has one of three outcomes. A PDU of less than 17 bytes is an error and changes nothing. Otherwise let `expected`
  -- be the confirm value `c1` of the random value in the PDU. If it is the confirm value received
  -- before, the answer is our own random value, the key is `s1` of the two random values, and the
  -- link waits for encryption. If it is not, the result is `ConfirmMismatch` with reason 6, and
  -- neither the key nor the state of the pairing changes.
  pub handle_random-outcome :
      (body : List ℕ) (s : Smp)
      → IsSized s
      → ((length body < 17) × (handle_random encrypt body s ≡ ok (err invalid_smp_pdu, s)))
        ⊎ ((random : List ℕ) × (expected : List ℕ) × (stk : List ℕ) × Checked body s random expected
              stk
            × (((expected ≡ s.peer_confirm)
                  × (handle_random encrypt body s
                      ≡ ok (ok (smp_pairing_random ∷ s.own_random), accepted s random stk)))
                ⊎ ((expected ≢ s.peer_confirm)
                    × (handle_random encrypt body s
                        ≡ ok (err confirm_mismatch, refused s random)))))
  unfolding handle_random
  handle_random-outcome body s sized = elim (ltb-cases (length body) 17) [
    | inl (short, e) ↦ inl (short, rw e)
    | inr (long, e) ↦
        let (random, expected, stk, checked, _, whole) = handle_random-checks body s sized long in
        inr (
          random,
          expected,
          stk,
          checked,
          elim (Bool-cases (bytes_eq expected s.peer_confirm)) [
            | inl f ↦ inl (bytes_eq→eq expected s.peer_confirm f, whole ∙ rw f)
            | inr f ↦ inr (differs expected s.peer_confirm f, whole ∙ rw f)
          ],
        )
  ]

pub same_outcome : {A : Type 0} (x y : A) (m : Result ⊥ A) → m ≡ ok x → m ≡ ok y → x ≡ y
same_outcome x y m h k = cc

no_error :
    (e : SmpError) (a : List ℕ) (s t : Smp) (m : Result ⊥ (Result SmpError (List ℕ) × Smp))
    → m ≡ ok (err e, s)
    → m ≡ ok (ok a, t)
    → ⊥
no_error e a s t m h k =
    let f =
      ap (λ (p : Result SmpError (List ℕ) × Smp). p.0) (same_outcome (err e, s) (ok a, t) m h k) in
    cc

module _ (encrypt : List ℕ → List ℕ → List ℕ)
    (block_size : (key block : List ℕ) → length block ≡ 16 → length (encrypt key block) ≡ 16) where
  -- What an accepted random value has been checked with.
  handle_random-accepted :
      (body out : List ℕ) (s t : Smp)
      → IsSized s
      → handle_random encrypt body s ≡ ok (ok out, t)
      → (random : List ℕ) × (stk : List ℕ) × Checked encrypt block_size body s random s.peer_confirm
          stk
        × (t ≡ accepted s random stk)
  handle_random-accepted body out s t sized run =
      elim (handle_random-outcome encrypt block_size body s sized) [
        | inl (_, short) ↦ absurd (no_error invalid_smp_pdu out s t _ short run)
        | inr (random, expected, stk, (key, e, f, g, h, n), rest) ↦ elim rest [
          | inl (same, yields) ↦
              let pair =
                same_outcome (ok (smp_pairing_random ∷ s.own_random), accepted s random stk)
                  (ok out, t) _ yields run in
              (
                random,
                stk,
                (key, e, f, g ∙ ap ok same, h, n),
                sym (ap (λ (p : Result SmpError (List ℕ) × Smp). p.1) pair),
              )
          | inr (_, yields) ↦
              absurd (no_error confirm_mismatch out (refused s random) t _ yields run)
        ]
      ]

  -- If the block cipher keeps the size of a block and can be decrypted, then a confirm value admits
  -- one random value: two PDUs that `handle_random` accepts in the same state, with arrays of their
  -- sizes, carry the same random value and lead to the same state and key.
  pub handle_random-commits :
      (decryptable : (key b b' : List ℕ) → encrypt key b ≡ encrypt key b' → b ≡ b')
      (body body' out out' : List ℕ) (s t t' : Smp)
      → IsSized s
      → handle_random encrypt body s ≡ ok (ok out, t)
      → handle_random encrypt body' s ≡ ok (ok out', t')
      → (slice {E = ⊥} body 1 17 ≡ slice body' 1 17) × (t ≡ t')
  handle_random-commits decryptable body body' out out' s t t' sized run run' =
      let (r, k, (key, e, f, g, h, n), end) = handle_random-accepted body out s t sized run in
      let (r', k', (key', e', f', g', h', n'), end') =
        handle_random-accepted body' out' s t' sized run' in
      let keys = same_outcome key key' _ f f' in
      let g'' = ap (λ x. c1 encrypt x (inputs_with r' s)) keys ∙ g' in
      let randoms =
        (c1_injective encrypt block_size decryptable key r r' (inputs_with r s)
          (inputs-HasInputSizes r s sized) n n' (g ∙ sym g'')).0 in
      let same : s1 encrypt key s.own_random r ≡ s1 encrypt key' s.own_random r' =
        λ i. s1 encrypt (keys i) s.own_random (randoms i) in
      let stks = same_outcome k k' _ h (same ∙ h') in
      (e ∙ ap ok randoms ∙ sym e', end ∙ (λ i. accepted s (randoms i) (stks i)) ∙ sym end')
