-- ===== src/Hw/Smp/SharedSecret.antt =====
-- The exchange of public keys, and the long term key that follows from it.
use nrf_ble.Base.{
  ℕ, ◌≡◌, refl, ap, ◌∙◌, arith, lt_false, List, [], ◌∷◌, ◌++◌, length, length-append, replicate,
  some, true,
}
use nrf_ble.Base.Results.{lift, Result, ok, ◌>>=◌}
use nrf_ble.Base.Slices.{slice_suffix, copy_to_fill, copy_to_end, put-append}
use nrf_ble.Hw.Smp.State.{Smp, SmpError}
use nrf_ble.Hw.Smp.PublicKey.{
  P256, build_public_key, agree, handle_public_key, f5_salt, compute_ltk_sc,
}
use nrf_ble.Hw.Smp.Sizes.{IsSized, copy_whole}
use nrf_ble.Hw.Smp.Agreement.{did}

-- What the code relies on of `p256`: the public key of a secret key is encoded as 4 and 64 bytes,
-- which decode to it, and both sides of an exchange compute the same secret, of 32 bytes.
pub record IsCurve (p256 : P256) : Type 0 where
  pub public_key : p256.SecretKey → p256.PublicKey
  pub encoded :
      (sk : p256.SecretKey) → (xy : List ℕ) × (p256.public_bytes sk ≡ 0x04 ∷ xy) × (length xy ≡ 64)
  pub decoded :
      (sk : p256.SecretKey)
      → (point : p256.Point) × (p256.point_of (p256.public_bytes sk) ≡ some point)
        × (p256.public_of point ≡ some (public_key sk))
  pub symmetric :
      (x y : p256.SecretKey)
      → p256.diffie_hellman x (public_key y) ≡ p256.diffie_hellman y (public_key x)
  pub secret_size :
      (x : p256.SecretKey) (pk : p256.PublicKey) → length (p256.diffie_hellman x pk) ≡ 32

-- The message of `f5`, but for its last byte.
abbrev pub f5_message : List ℕ → List ℕ → List ℕ → List ℕ → List ℕ
f5_message n1 n2 a1 a2 =
    0x00 ∷ 0x01 ∷ [] ++ a2 ++ a1 ++ n2 ++ n1 ++ (0x65 ∷ 0x6c ∷ 0x74 ∷ 0x62 ∷ [])

module _ (cmac : List ℕ → List ℕ → List ℕ) where
  -- With nonces of 16 and addresses of 7 bytes, `compute_ltk_sc` does not panic. It applies the
  -- code `cmac` to the message with last byte 0 and then, with the result as the key, to the message
  -- with last byte 1.
  pub compute_ltk_sc-value :
      (s : Smp) (n1 n2 a1 a2 : List ℕ)
      → length n1 ≡ 16
      → length n2 ≡ 16
      → length a1 ≡ 7
      → length a2 ≡ 7
      → compute_ltk_sc cmac s n1 n2 a1 a2
        ≡ ok (
            cmac
              (cmac (cmac f5_salt s.dhkey) (f5_message n1 n2 a1 a2 ++ 0 ∷ []))
              (f5_message n1 n2 a1 a2 ++ 1 ∷ []))
  unfolding compute_ltk_sc
  compute_ltk_sc-value s n1 n2 a1 a2 hn1 hn2 ha1 ha2 =
      let out : List ℕ = replicate 53 0 in
      let m1 : List ℕ = 0x00 ∷ 0x01 ∷ [] in
      let m2 = m1 ++ a2 in
      let m3 = m2 ++ a1 in
      let m4 = m3 ++ n2 in
      let m5 = m4 ++ n1 in
      let btle : List ℕ = 0x65 ∷ 0x6c ∷ 0x74 ∷ 0x62 ∷ [] in
      let l2 = length-append m1 a2 in
      let l3 = length-append m2 a1 in
      let l4 = length-append m3 n2 in
      let l5 = length-append m4 n1 in
      let l6 = length-append m5 btle in
      rw (
        copy_to_fill {E = ⊥} m1 out 2 9 refl a2 (omega arith) (omega arith),
        copy_to_fill {E = ⊥} m2 out 9 16 (omega arith) a1 (omega arith) (omega arith),
        copy_to_fill {E = ⊥} m3 out 16 32 (omega arith) n2 (omega arith) (omega arith),
        copy_to_fill {E = ⊥} m4 out 32 48 (omega arith) n1 (omega arith) (omega arith),
        copy_to_fill {E = ⊥} m5 out 48 52 (omega arith) btle (omega arith) (omega arith),
        put-append {E = ⊥} (m5 ++ btle) [] 0 0 52 (omega arith),
        put-append {E = ⊥} (m5 ++ btle) [] 0 1 52 (omega arith),
      )

module _ (p256 : P256) (curve : IsCurve p256) where
  -- Each side sends its public key and takes the other's in.
  unfoldable pub share : Smp → Smp → Result SmpError (Smp × Smp)
  share a b = do
    to_b ← lift (build_public_key p256 a)
    to_a ← lift (build_public_key p256 b)
    (_, b) ← did (handle_public_key p256 to_b b)
    (_, a) ← did (handle_public_key p256 to_a a)
    ok (a, b)

  build_public_key-value :
      (s : Smp) (sk : p256.SecretKey)
      → p256.secret_of s.own_private ≡ some sk
      → build_public_key p256 s ≡ ok (0x0C ∷ (curve.encoded sk).0)
  unfolding build_public_key
  build_public_key-value s sk e =
      let (xy, f, n) = curve.encoded sk in
      rw (
        e,
        f,
        slice_suffix {E = ⊥} (0x04 ∷ []) xy 1 (length (0x04 ∷ xy)) refl refl,
        copy_to_end {E = ⊥} (0x0C ∷ []) (replicate 64 0) xy 1 65 refl (omega arith) (omega arith),
      )

  agree-value :
      (s : Smp) (x y : p256.SecretKey)
      → p256.secret_of s.own_private ≡ some x
      → agree p256 (0x04 ∷ (curve.encoded y).0) s.own_private
        ≡ ok (p256.diffie_hellman x (curve.public_key y))
  unfolding agree
  agree-value s x y e =
      let (xy, f, n) = curve.encoded y in let (point, g, h) = curve.decoded y in rw (← f, g, h, e)

  handle_public_key-value :
      (s : Smp) (x y : p256.SecretKey)
      → IsSized s
      → p256.secret_of s.own_private ≡ some x
      → handle_public_key p256 (0x0C ∷ (curve.encoded y).0) s
        ≡ ok (
          ok tt,
          record s {
            peer_public = (curve.encoded y).0;
            dhkey = p256.diffie_hellman x (curve.public_key y);
            sc = true;
          },
        )
  unfolding handle_public_key
  handle_public_key-value s x y sized e =
      let (xy, f, n) = curve.encoded y in
      let raw = p256.diffie_hellman x (curve.public_key y) in
      rw (
        lt_false (length (0x0C ∷ xy)) 65 (omega arith),
        slice_suffix {E = ⊥} (0x0C ∷ []) xy 1 65 refl (omega arith),
        copy_whole s.peer_public xy 64 sized.peer_public_size n,
        copy_to_end {E = ⊥} (0x04 ∷ []) (replicate 64 0) xy 1 65 refl (omega arith) (omega arith),
        agree-value s x y e,
        copy_whole s.dhkey raw 32 sized.dhkey_size (curve.secret_size x (curve.public_key y)),
      )

  -- Two devices with valid private keys, and arrays of their sizes, exchange their public keys
  -- without an error or a panic; then both compute the same long term key from the same nonces of 16
  -- and addresses of 7 bytes. The curve is as `IsCurve` states.
  pub share-agrees :
      (cmac : List ℕ → List ℕ → List ℕ) (a b : Smp) (x y : p256.SecretKey) (n1 n2 a1 a2 : List ℕ)
      → IsSized a
      → IsSized b
      → p256.secret_of a.own_private ≡ some x
      → p256.secret_of b.own_private ≡ some y
      → length n1 ≡ 16
      → length n2 ≡ 16
      → length a1 ≡ 7
      → length a2 ≡ 7
      → (a' : Smp) × (b' : Smp) × (ltk : List ℕ) × (share a b ≡ ok (a', b'))
        × (compute_ltk_sc cmac a' n1 n2 a1 a2 ≡ ok ltk)
        × (compute_ltk_sc cmac b' n1 n2 a1 a2 ≡ ok ltk)
  unfolding share
  share-agrees cmac a b x y n1 n2 a1 a2 sa sb e f hn1 hn2 ha1 ha2 =
      let a' : Smp = record a {
        peer_public = (curve.encoded y).0;
        dhkey = p256.diffie_hellman x (curve.public_key y);
        sc = true;
      } in
      let b' : Smp = record b {
        peer_public = (curve.encoded x).0;
        dhkey = p256.diffie_hellman y (curve.public_key x);
        sc = true;
      } in
      let m = f5_message n1 n2 a1 a2 in
      (
        a',
        b',
        cmac (cmac (cmac f5_salt (p256.diffie_hellman x (curve.public_key y))) (m ++ 0 ∷ []))
            (m ++ 1 ∷ []),
        rw (
          build_public_key-value a x e,
          build_public_key-value b y f,
          handle_public_key-value b y x sb f,
          handle_public_key-value a x y sa e,
        ),
        compute_ltk_sc-value cmac a' n1 n2 a1 a2 hn1 hn2 ha1 ha2,
        compute_ltk_sc-value cmac b' n1 n2 a1 a2 hn1 hn2 ha1 ha2
            ∙ ap (λ d. ok (cmac (cmac (cmac f5_salt d) (m ++ 0 ∷ [])) (m ++ 1 ∷ [])))
                (curve.symmetric y x),
      )
