-- ===== src/Hw/Smp/PublicKey.antt =====
-- The key agreement of LE Secure Connections: `build_public_key`, `handle_public_key` and
-- `compute_ltk_sc` of src/hw/smp.rs. The crates `p256` and `cmac` are parameters.
use nrf_ble.Base.{ℕ, ltb, List, [], ◌∷◌, length, replicate, true, Option, if◌then◌else◌}
use nrf_ble.Base.Results.{Result, ok, err, panic, ◌>>=◌, slice, copy_to, put, ok_or, unwrap}
use nrf_ble.Hw.Smp.State.{Smp, SmpError, invalid_smp_pdu, smp_public_key}

-- What the code calls of `p256`.
pub record P256 : Type 1 where
  pub SecretKey : Type 0
  pub Point : Type 0
  pub PublicKey : Type 0
  -- `SecretKey::from_bytes`
  pub secret_of : List ℕ → Option SecretKey
  -- The bytes of `EncodedPoint::from(sk.public_key())`.
  pub public_bytes : SecretKey → List ℕ
  -- `EncodedPoint::from_bytes`
  pub point_of : List ℕ → Option Point
  -- `P256Public::from_encoded_point`
  pub public_of : Point → Option PublicKey
  -- `diffie_hellman(..).raw_secret_bytes()`
  pub diffie_hellman : SecretKey → PublicKey → List ℕ

module _ (p256 : P256) where
  unfoldable pub build_public_key : Smp → Result ⊥ (List ℕ)
  build_public_key s = do
    sk ← unwrap (p256.secret_of s.own_private)
    let bytes = p256.public_bytes sk
    part ← slice bytes 1 (length bytes)
    copy_to (smp_public_key ∷ replicate 64 0) 1 65 part

  -- The secret that an encoded point and our key give, if they are valid.
  unfoldable pub agree : List ℕ → List ℕ → Result SmpError (List ℕ)
  agree enc own_private = do
    point ← ok_or (p256.point_of enc) invalid_smp_pdu
    peer ← ok_or (p256.public_of point) invalid_smp_pdu
    sk ← ok_or (p256.secret_of own_private) invalid_smp_pdu
    ok (p256.diffie_hellman sk peer)

  -- The end of `handle_public_key`: an error returns, a secret is kept.
  abbrev pub take_secret :
      Result SmpError (List ℕ) → Smp → Result ⊥ (Result SmpError (Unit {0}) × Smp)
  take_secret (err e) s = ok (err e, s)
  take_secret panic s = panic
  take_secret (ok raw) s = do
    dhkey ← copy_to s.dhkey 0 32 raw
    ok (ok tt, record s { dhkey = dhkey; sc = true })

  unfoldable pub handle_public_key : List ℕ → Smp → Result ⊥ (Result SmpError (Unit {0}) × Smp)
  handle_public_key body s = if ltb (length body) 65 then ok (err invalid_smp_pdu, s) else (do
    part ← slice body 1 65
    peer_public ← copy_to s.peer_public 0 64 part
    let s : Smp = record s { peer_public = peer_public }
    enc ← copy_to (0x04 ∷ replicate 64 0) 1 65 part
    take_secret (agree enc s.own_private) s)

abbrev pub f5_salt : List ℕ
f5_salt =
    0xbe ∷ 0x83 ∷ 0x60 ∷ 0x5a ∷ 0xdb ∷ 0x0b ∷ 0x37 ∷ 0x60 ∷ 0x38 ∷ 0xa5 ∷ 0xf5 ∷ 0xaa ∷ 0x91 ∷ 0x83
    ∷ 0x88 ∷ 0x6c ∷ []

-- `cmac key bytes` is `aes_cmac`.
module _ (cmac : List ℕ → List ℕ → List ℕ) where
  unfoldable pub compute_ltk_sc : Smp → List ℕ → List ℕ → List ℕ → List ℕ → Result ⊥ (List ℕ)
  compute_ltk_sc s n1 n2 a1 a2 = do
    let t = cmac f5_salt s.dhkey
    m ← copy_to (replicate 53 0) 0 2 (0x00 ∷ 0x01 ∷ [])
    m ← copy_to m 2 9 a2
    m ← copy_to m 9 16 a1
    m ← copy_to m 16 32 n2
    m ← copy_to m 32 48 n1
    m ← copy_to m 48 52 (0x65 ∷ 0x6c ∷ 0x74 ∷ 0x62 ∷ [])
    m ← put m 52 0
    let mackey = cmac t m
    m ← put m 52 1
    ok (cmac mackey m)
