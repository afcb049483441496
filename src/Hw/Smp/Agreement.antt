-- ===== src/Hw/Smp/Agreement.antt =====
-- A legacy pairing between two devices, message by message.
use nrf_ble.Base.{
  ℕ, ◌≡◌, refl, ap, ◌∙◌, arith, lt_false, List, [], ◌∷◌, length, replicate, true, bytes_eq_refl,
}
use nrf_ble.Base.Results.{lift, Result, ok, err, panic, ◌>>=◌, slice}
use nrf_ble.Base.Slices.{slice_suffix}
use nrf_ble.Hw.Smp.{C1Inputs, c1, s1}
use nrf_ble.Hw.Smp.Commit.{c1-total, s1-total}
use nrf_ble.Hw.Smp.State.{
  Smp, SmpError, wait_confirm, wait_random, waiting_start_enc, tk, tk_of, smp_pairing_response,
  io_no_input_no_output,
}
use nrf_ble.Hw.Smp.Pairing.{
  inputs_with, build_pairing_request, handle_pairing_request, handle_pairing_response,
  build_confirm, handle_confirm, build_random, handle_random,
}
use nrf_ble.Hw.Smp.Sizes.{IsSized, pdu17-block, copy_whole, tk-total}
use nrf_ble.Hw.Smp.Verify.{accepted}

-- A method's error ends the pairing.
abbrev pub did : {A : Type 0} → Result ⊥ (Result SmpError A × Smp) → Result SmpError (A × Smp)
did (ok (ok a, s)) = ok (a, s)
did (ok (err e, s)) = err e
did (ok (panic, s)) = panic
did (err e) = absurd e
did panic = panic

block_of : (op : ℕ) (v : List ℕ) → length v ≡ 16 → slice {E = ⊥} (op ∷ v) 1 17 ≡ ok v
block_of op v h = slice_suffix {E = ⊥} (op ∷ []) v 1 17 refl (omega arith)

confirm-value :
    (op : ℕ) (v : List ℕ) (s : Smp)
    → length v ≡ 16
    → length s.peer_confirm ≡ 16
    → handle_confirm (op ∷ v) s ≡ ok (ok tt, record s { peer_confirm = v; state = wait_random })
unfolding handle_confirm
confirm-value op v s h k = rw (
  lt_false (length (op ∷ v)) 17 (omega arith),
  block_of op v h,
  copy_whole s.peer_confirm v 16 k h,
)

module _ (encrypt : List ℕ → List ℕ → List ℕ) where
  -- The run of a pairing: request, response, both confirm values, both random values.
  unfoldable pub pair : ℕ → List ℕ → List ℕ → Smp → Smp → Result SmpError (Smp × Smp)
  pair iat ia ra a b = do
    let (request, a) = build_pairing_request a
    (response, b) ← did (handle_pairing_request request b)
    (_, a) ← did (handle_pairing_response response a)
    (confirm, a) ← lift (build_confirm encrypt iat ia ra a)
    (_, b) ← did (handle_confirm confirm b)
    (confirm, b) ← lift (build_confirm encrypt iat ia ra b)
    (_, a) ← did (handle_confirm confirm a)
    random ← lift (build_random a)
    (random, b) ← did (handle_random encrypt random b)
    (_, a) ← did (handle_random encrypt random a)
    ok (a, b)

  -- A state with both confirm inputs, in which the random value is the constant one.
  abbrev confirmed : ℕ → List ℕ → List ℕ → List ℕ → Smp → Smp
  confirmed iat ia ra v s = record s {
    iat = iat;
    ia = ia;
    ra = ra;
    own_random = replicate 16 0x5A;
    own_confirm = v;
  }

  build_confirm-value :
      (iat : ℕ) (ia ra key v : List ℕ) (s : Smp)
      → length s.own_random ≡ 16
      → tk_of s.passkey ≡ ok key
      → c1 encrypt key (record {
        r = replicate 16 0x5A;
        preq = s.preq;
        pres = s.pres;
        iat = iat;
        rat = s.rat;
        ia = ia;
        ra = ra;
      })
        ≡ ok v
      → length v ≡ 16
      → build_confirm encrypt iat ia ra s ≡ ok (3 ∷ v, confirmed iat ia ra v s)
  unfolding build_confirm tk
  build_confirm-value iat ia ra key v s h e f n = rw (h, e, f, pdu17-block 3 v n)

  random-value :
      (op : ℕ) (key r k : List ℕ) (s : Smp)
      → length r ≡ 16
      → length s.own_random ≡ 16
      → length s.peer_random ≡ 16
      → tk_of s.passkey ≡ ok key
      → c1 encrypt key (inputs_with r s) ≡ ok s.peer_confirm
      → s1 encrypt key s.own_random r ≡ ok k
      → handle_random encrypt (op ∷ r) s ≡ ok (ok (4 ∷ s.own_random), accepted s r k)
  unfolding handle_random tk
  random-value op key r k s n own h e f g = rw (
    lt_false (length (op ∷ r)) 17 (omega arith),
    block_of op r n,
    copy_whole s.peer_random r 16 h n,
    e,
    f,
    bytes_eq_refl s.peer_confirm,
    g,
    pdu17-block 4 s.own_random own,
  )

  module _
      (block_size : (key block : List ℕ)
        → length block ≡ 16
        → length (encrypt key block) ≡ 16) where
    -- Two devices with the same passkey, or both without one, run the whole pairing without an
    -- error or a panic, and then hold the same key and wait for encryption. The arrays have their
    -- sizes, the block cipher keeps the size of a block, and the initiator's responder address type
    -- is 0, as `new` sets it. The key is `s1` of the temporary key and of the constant random value
    -- that both sides use.
    pub pair-agrees :
        (iat : ℕ) (ia ra : List ℕ) (a b : Smp)
        → length ia ≡ 6
        → length ra ≡ 6
        → IsSized a
        → IsSized b
        → a.passkey ≡ b.passkey
        → a.rat ≡ 0
        → (a' : Smp) × (b' : Smp) × (key : List ℕ) × (pair iat ia ra a b ≡ ok (a', b'))
          × (a'.stk ≡ b'.stk)
          × (tk b ≡ ok key)
          × (s1 encrypt key (replicate 16 0x5A) (replicate 16 0x5A) ≡ ok a'.stk)
          × (a'.state ≡ waiting_start_enc)
          × (b'.state ≡ waiting_start_enc)
    unfolding pair build_pairing_request handle_pairing_request handle_pairing_response build_random
        tk
    pair-agrees iat ia ra a b hi hr sa sb same rat =
        let (request, a0) = build_pairing_request a in
        let rsp : List ℕ =
          smp_pairing_response ∷ io_no_input_no_output ∷ 0 ∷ 0x01 ∷ 16 ∷ 0x01 ∷ 0x01 ∷ [] in
        let r : List ℕ = replicate 16 0x5A in
        let (key, e, _) = tk-total b in
        let e' : tk_of a.passkey ≡ ok key = ap tk_of same ∙ e in
        let inputs : C1Inputs = record {
          r = r;
          preq = request;
          pres = rsp;
          iat = iat;
          rat = 0;
          ia = ia;
          ra = ra;
        } in
        let (v, f, n) =
          c1-total encrypt block_size key inputs
            (record { preq_size = refl; pres_size = refl; ia_size = hi; ra_size = hr }) refl in
        let f' : c1 encrypt key (record inputs { rat = a.rat }) ≡ ok v =
          ap (λ x. c1 encrypt key (record inputs { rat = x })) rat ∙ f in
        let (k, g, m) = s1-total encrypt block_size key r r refl refl in
        let a1 : Smp = record a { preq = request; pres = rsp; state = wait_confirm } in
        let b1 : Smp = record b {
          preq = request;
          rat = 0;
          responder = true;
          state = wait_confirm;
          pres = rsp;
        } in
        let a2 = confirmed iat ia ra v a1 in
        let b2 : Smp = record b1 { peer_confirm = v; state = wait_random } in
        let b3 = confirmed iat ia ra v b2 in
        let a3 : Smp = record a2 { peer_confirm = v; state = wait_random } in
        (
          accepted a3 r k,
          accepted b3 r k,
          key,
          rw (
            copy_whole b.preq request 7 sb.preq_size refl,
            copy_whole a.pres rsp 7 sa.pres_size refl,
            build_confirm-value iat ia ra key v a1 sa.own_random_size e' f' n,
            confirm-value 3 v b1 n sb.peer_confirm_size,
            build_confirm-value iat ia ra key v b2 sb.own_random_size e f n,
            confirm-value 3 v a2 n sa.peer_confirm_size,
            random-value 4 key r k b3 refl refl sb.peer_random_size e f g,
            random-value 4 key r k a3 refl refl sa.peer_random_size e' f' g,
          ),
          refl,
          e,
          g,
          refl,
          refl,
        )
