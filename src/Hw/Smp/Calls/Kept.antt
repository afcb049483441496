-- ===== src/Hw/Smp/Calls/Kept.antt =====
-- Every call keeps the sizes of the arrays, and none panics.
use nrf_ble.Base.{
  ℕ, ◌≡◌, refl, ap, ◌∙◌, arith, ltb-cases, Option-cases, List, [], ◌∷◌, length, length-replicate,
  replicate, true, Bool-cases, ◌⊎◌, inl, inr, bytes_eq,
}
use nrf_ble.Base.Results.{Result, ok, err}
use nrf_ble.Base.Slices.{slice_part, copy_to_end}
use nrf_ble.Hw.Smp.Commit.{c1-total}
use nrf_ble.Hw.Smp.State
use nrf_ble.Hw.Smp.State.{
  Smp, SmpError, invalid_smp_pdu, confirm_mismatch, tk, smp_pairing_confirm, smp_pairing_response,
  io_no_input_no_output, wait_confirm, wait_random, waiting_start_enc,
}
use nrf_ble.Hw.Smp.Pairing
use nrf_ble.Hw.Smp.Pairing.{pdu17, inputs_with}
use nrf_ble.Hw.Smp.PublicKey
use nrf_ble.Hw.Smp.PublicKey.{P256, agree, take_secret}
use nrf_ble.Hw.Smp.Sizes.{
  AllSized, sizes, all_sized, pdu17-block, copy_whole, tk-total, inputs-HasInputSizes,
}
use nrf_ble.Hw.Smp.Verify.{handle_random-checks, accepted, refused}
use nrf_ble.Hw.Smp.Calls.{
  Call, set_passkey, enable_sc, build_pairing_request, fail_unspecified, fail_oob, fail_auth,
  handle_pairing_request, handle_pairing_response, handle_confirm, handle_random, handle_public_key,
  build_confirm, after, IsTyped, AllTyped, and_then, perform, perform_all,
}

module _ (encrypt : List ℕ → List ℕ → List ℕ) (p256 : P256)
    (block_size : (key block : List ℕ) → length block ≡ 16 → length (encrypt key block) ≡ 16)
    (secret_size : (sk : p256.SecretKey) (pk : p256.PublicKey)
      → length (p256.diffie_hellman sk pk) ≡ 32) where
  abbrev Kept : Result ⊥ Smp → Type 0
  Kept run = (t : Smp) × (run ≡ ok t) × AllSized t

  request_kept :
      (body : List ℕ) (s : Smp) → AllSized s → Kept (after (Pairing.handle_pairing_request body s))
  unfolding Pairing.handle_pairing_request
  request_kept body s sized = elim (ltb-cases (length body) 7) [
    | inl (_, e) ↦ (s, rw e, sized)
    | inr (long, e) ↦
        let (a, b, c, d, preq, pres, ia, ra, stk, dh, pub_key, priv, nonce, peer_nonce) =
          sizes sized in
        let (part, f, n) = slice_part {E = ⊥} body 0 7 (omega arith) long in
        (
          record s {
            preq = part;
            rat = 0;
            responder = true;
            state = wait_confirm;
            pres = smp_pairing_response ∷ io_no_input_no_output ∷ 0 ∷ 0x01 ∷ 16 ∷ 0x01 ∷ 0x01 ∷ [];
          },
          rw (e, f, copy_whole s.preq part 7 sized.arrays.preq_size n),
          all_sized (a, b, c, d, n, refl, ia, ra, stk, dh, pub_key, priv, nonce, peer_nonce),
        )
  ]

  response_kept :
      (body : List ℕ) (s : Smp) → AllSized s → Kept (after (Pairing.handle_pairing_response body s))
  unfolding Pairing.handle_pairing_response
  response_kept body s sized = elim (ltb-cases (length body) 7) [
    | inl (_, e) ↦ (s, rw e, sized)
    | inr (long, e) ↦
        let (a, b, c, d, preq, pres, ia, ra, stk, dh, pub_key, priv, nonce, peer_nonce) =
          sizes sized in
        let (part, f, n) = slice_part {E = ⊥} body 0 7 (omega arith) long in
        (
          record s { pres = part; state = wait_confirm },
          rw (e, f, copy_whole s.pres part 7 sized.arrays.pres_size n),
          all_sized (a, b, c, d, preq, n, ia, ra, stk, dh, pub_key, priv, nonce, peer_nonce),
        )
  ]

  confirm_kept :
      (body : List ℕ) (s : Smp) → AllSized s → Kept (after (Pairing.handle_confirm body s))
  unfolding Pairing.handle_confirm
  confirm_kept body s sized = elim (ltb-cases (length body) 17) [
    | inl (_, e) ↦ (s, rw e, sized)
    | inr (long, e) ↦
        let (a, b, c, d, preq, pres, ia, ra, stk, dh, pub_key, priv, nonce, peer_nonce) =
          sizes sized in
        let (part, f, n) = slice_part {E = ⊥} body 1 17 (omega arith) long in
        (
          record s { peer_confirm = part; state = wait_random },
          rw (e, f, copy_whole s.peer_confirm part 16 sized.arrays.peer_confirm_size n),
          all_sized (a, b, c, n, preq, pres, ia, ra, stk, dh, pub_key, priv, nonce, peer_nonce),
        )
  ]

  random_kept :
      (body : List ℕ) (s : Smp) → AllSized s → Kept (after (Pairing.handle_random encrypt body s))
  unfolding Pairing.handle_random
  random_kept body s sized = elim (ltb-cases (length body) 17) [
    | inl (_, e) ↦ (s, rw e, sized)
    | inr (long, e) ↦
        let (a, b, c, d, preq, pres, ia, ra, stk, dh, pub_key, priv, nonce, peer_nonce) =
          sizes sized in
        let (random, expected, key, (_, _, _, _, _, n), m, whole) =
          handle_random-checks encrypt block_size body s sized.arrays long in
        elim (Bool-cases (bytes_eq expected s.peer_confirm)) [
          | inl f ↦ (
            accepted s random key,
            ap after whole ∙ rw f,
            all_sized (a, n, c, d, preq, pres, ia, ra, m, dh, pub_key, priv, nonce, peer_nonce),
          )
          | inr f ↦ (
            refused s random,
            ap after whole ∙ rw f,
            all_sized (a, n, c, d, preq, pres, ia, ra, stk, dh, pub_key, priv, nonce, peer_nonce),
          )
        ]
  ]

  build_kept :
      (iat : ℕ) (ia ra : List ℕ) (s : Smp)
      → length ia ≡ 6
      → length ra ≡ 6
      → AllSized s
      → Kept (after (Pairing.build_confirm encrypt iat ia ra s))
  unfolding Pairing.build_confirm
  build_kept iat ia ra s hi hr sized =
      let (a, b, c, d, preq, pres, _, _, stk, dh, pub_key, priv, nonce, peer_nonce) = sizes sized in
      let own = length-replicate (length s.own_random) 0x5A ∙ a in
      let s' : Smp = record s {
        iat = iat;
        ia = ia;
        ra = ra;
        own_random = replicate (length s.own_random) 0x5A;
      } in
      let sized' : AllSized s' =
        all_sized (own, b, c, d, preq, pres, hi, hr, stk, dh, pub_key, priv, nonce, peer_nonce) in
      let (key, e, _) = tk-total s' in
      let (v, f, n) =
        c1-total encrypt block_size key (inputs_with s'.own_random s')
          (inputs-HasInputSizes s'.own_random s' sized'.arrays) own in
      (
        record s' { own_confirm = v },
        rw (e, f, pdu17-block smp_pairing_confirm v n),
        all_sized (own, b, n, d, preq, pres, hi, hr, stk, dh, pub_key, priv, nonce, peer_nonce),
      )

  agreed :
      (s : Smp) (pub_key : List ℕ)
      → (run : Result SmpError (List ℕ))
      → ((e : SmpError) × (run ≡ err e)) ⊎ ((raw : List ℕ) × (run ≡ ok raw) × (length raw ≡ 32))
      → length pub_key ≡ 64
      → AllSized s
      → Kept (after (take_secret p256 run (record s { peer_public = pub_key })))
  agreed s pub_key run (inl (e, f)) h sized =
      let (a, b, c, d, preq, pres, ia, ra, stk, dh, _, priv, nonce, peer_nonce) = sizes sized in
      (
        record s { peer_public = pub_key },
        rw f,
        all_sized (a, b, c, d, preq, pres, ia, ra, stk, dh, h, priv, nonce, peer_nonce),
      )
  agreed s pub_key run (inr (raw, f, n)) h sized =
      let (a, b, c, d, preq, pres, ia, ra, stk, dh, _, priv, nonce, peer_nonce) = sizes sized in
      (
        record s { peer_public = pub_key; dhkey = raw; sc = true },
        rw (f, copy_whole s.dhkey raw 32 dh n),
        all_sized (a, b, c, d, preq, pres, ia, ra, stk, n, h, priv, nonce, peer_nonce),
      )

  agree-cases :
      (enc own_private : List ℕ)
      → ((e : SmpError) × (agree p256 enc own_private ≡ err e))
        ⊎ ((raw : List ℕ) × (agree p256 enc own_private ≡ ok raw) × (length raw ≡ 32))
  unfolding agree
  agree-cases enc own_private = elim (Option-cases (p256.point_of enc)) [
    | inl e ↦ inl (invalid_smp_pdu, rw e)
    | inr (point, e) ↦ elim (Option-cases (p256.public_of point)) [
      | inl f ↦ inl (invalid_smp_pdu, rw (e, f))
      | inr (peer, f) ↦ elim (Option-cases (p256.secret_of own_private)) [
        | inl g ↦ inl (invalid_smp_pdu, rw (e, f, g))
        | inr (sk, g) ↦ inr (p256.diffie_hellman sk peer, rw (e, f, g), secret_size sk peer)
      ]
    ]
  ]

  public_key_kept :
      (body : List ℕ) (s : Smp)
      → AllSized s
      → Kept (after (PublicKey.handle_public_key p256 body s))
  unfolding PublicKey.handle_public_key
  public_key_kept body s sized = elim (ltb-cases (length body) 65) [
    | inl (_, e) ↦ (s, rw e, sized)
    | inr (long, e) ↦
        let (part, f, n) = slice_part {E = ⊥} body 1 65 (omega arith) long in
        let enc =
          copy_to_end {E = ⊥} (0x04 ∷ []) (replicate 64 0) part 1 65 refl (omega arith)
            (omega arith) in
        let (t, g, kept) =
          agreed s part (agree p256 (0x04 ∷ part) s.own_private)
            (agree-cases (0x04 ∷ part) s.own_private) n sized in
        (
          t,
          rw (e, f, copy_whole s.peer_public part 64 sized.arrays.peer_public_size n, enc) g,
          kept,
        )
  ]

  perform-AllSized :
      (call : Call) (s : Smp) → IsTyped call → AllSized s → Kept (perform encrypt p256 call s)
  unfolding State.set_passkey State.enable_sc State.fail_unspecified State.fail_oob State.fail_auth
      Pairing.build_pairing_request
  perform-AllSized (set_passkey passkey) s typed sized =
      (State.set_passkey passkey s, refl, all_sized (sizes sized))
  perform-AllSized enable_sc s typed sized = (State.enable_sc s, refl, all_sized (sizes sized))
  perform-AllSized build_pairing_request s typed sized =
      let (a, b, c, d, preq, pres, ia, ra, stk, dh, pub_key, priv, nonce, peer_nonce) =
        sizes sized in
      (
        (Pairing.build_pairing_request s).1,
        refl,
        all_sized (a, b, c, d, refl, pres, ia, ra, stk, dh, pub_key, priv, nonce, peer_nonce),
      )
  perform-AllSized fail_unspecified s typed sized =
      ((State.fail_unspecified s).1, refl, all_sized (sizes sized))
  perform-AllSized fail_oob s typed sized = ((State.fail_oob s).1, refl, all_sized (sizes sized))
  perform-AllSized fail_auth s typed sized = ((State.fail_auth s).1, refl, all_sized (sizes sized))
  perform-AllSized (handle_pairing_request body) s typed sized = request_kept body s sized
  perform-AllSized (handle_pairing_response body) s typed sized = response_kept body s sized
  perform-AllSized (handle_confirm body) s typed sized = confirm_kept body s sized
  perform-AllSized (handle_random body) s typed sized = random_kept body s sized
  perform-AllSized (handle_public_key body) s typed sized = public_key_kept body s sized
  perform-AllSized (build_confirm iat ia ra) s typed sized =
      build_kept iat ia ra s typed.0 typed.1 sized

  -- If the block cipher keeps the size of a block and a shared secret has 32 bytes, then any
  -- sequence of calls of the methods that change the state, with arguments of the sizes that their
  -- types state and with any received bytes, runs without a panic, and keeps the sizes of all arrays.
  pub perform_all-AllSized :
      (calls : List Call) (s : Smp)
      → AllTyped calls
      → AllSized s
      → (t : Smp) × (perform_all encrypt p256 calls s ≡ ok t) × AllSized t
  unfolding perform_all
  perform_all-AllSized [] s typed sized = (s, refl, sized)
  perform_all-AllSized (call ∷ calls) s (and_then one rest) sized =
      let (t, e, sized') = perform-AllSized call s one sized in
      let (u, f, sized'') = perform_all-AllSized calls t rest sized' in (u, rw e f, sized'')
