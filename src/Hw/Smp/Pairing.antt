-- ===== src/Hw/Smp/Pairing.antt =====
-- The messages of LE legacy pairing: the `build_` and `handle_` methods of `Smp` (src/hw/smp.rs).
-- A handler returns the method's result and the state, which an error may have changed.
use nrf_ble.Base.{
  ℕ, bit_or, ltb, List, [], ◌∷◌, length, replicate, bytes_eq, true, not, if◌then◌else◌, none, some,
}
use nrf_ble.Base.Results.{Result, ok, err, ◌>>=◌, slice, copy_to}
use nrf_ble.Hw.Smp.{C1Inputs, c1, s1}
use nrf_ble.Hw.Smp.State.{
  Smp, SmpError, invalid_smp_pdu, confirm_mismatch, wait_confirm, wait_random, waiting_start_enc,
  tk, smp_pairing_request, smp_pairing_response, smp_pairing_confirm, smp_pairing_random,
  smp_reason_confirm, io_no_input_no_output,
}

-- The bytes 1 to 16 of a PDU of 17 bytes, behind its opcode.
abbrev pub pdu17 : ℕ → List ℕ → Result ⊥ (List ℕ)
pdu17 op value = copy_to (op ∷ replicate 16 0) 1 17 value

unfoldable pub build_pairing_request : Smp → List ℕ × Smp
build_pairing_request s =
    let io : ℕ = elim s.passkey [ none ↦ io_no_input_no_output | some _ ↦ 0x02 ] in
    let p =
      smp_pairing_request
      ∷ io
      ∷ 0
      ∷ bit_or 0x01 (if s.sc then 0x08 else 0)
      ∷ 16
      ∷ 0x01
      ∷ 0x01
      ∷ [] in
    (p, record s { preq = p })

unfoldable pub handle_pairing_request : List ℕ → Smp → Result ⊥ (Result SmpError (List ℕ) × Smp)
handle_pairing_request body s = if ltb (length body) 7 then ok (err invalid_smp_pdu, s) else (do
  part ← slice body 0 7
  preq ← copy_to s.preq 0 7 part
  let rsp = smp_pairing_response ∷ io_no_input_no_output ∷ 0 ∷ 0x01 ∷ 16 ∷ 0x01 ∷ 0x01 ∷ []
  ok (
    ok rsp,
    record s { preq = preq; rat = 0; responder = true; state = wait_confirm; pres = rsp },
  ))

unfoldable pub handle_pairing_response : List ℕ → Smp → Result ⊥ (Result SmpError (Unit {0}) × Smp)
handle_pairing_response body s = if ltb (length body) 7 then ok (err invalid_smp_pdu, s) else (do
  part ← slice body 0 7
  pres ← copy_to s.pres 0 7 part
  ok (ok tt, record s { pres = pres; state = wait_confirm }))

unfoldable pub handle_confirm : List ℕ → Smp → Result ⊥ (Result SmpError (Unit {0}) × Smp)
handle_confirm body s = if ltb (length body) 17 then ok (err invalid_smp_pdu, s) else (do
  part ← slice body 1 17
  peer_confirm ← copy_to s.peer_confirm 0 16 part
  ok (ok tt, record s { peer_confirm = peer_confirm; state = wait_random }))

unfoldable pub build_random : Smp → Result ⊥ (List ℕ)
build_random s = pdu17 smp_pairing_random s.own_random

-- The inputs of `c1` that both methods take from the state.
abbrev pub inputs_with : List ℕ → Smp → C1Inputs
inputs_with random s = record {
  r = random;
  preq = s.preq;
  pres = s.pres;
  iat = s.iat;
  rat = s.rat;
  ia = s.ia;
  ra = s.ra;
}

-- `encrypt key block` is `aes_encrypt`.
module _ (encrypt : List ℕ → List ℕ → List ℕ) where
  unfoldable pub build_confirm : ℕ → List ℕ → List ℕ → Smp → Result ⊥ (List ℕ × Smp)
  build_confirm iat ia ra s = do
    let s : Smp = record s {
      iat = iat;
      ia = ia;
      ra = ra;
      own_random = replicate (length s.own_random) 0x5A;
    }
    key ← tk s
    own_confirm ← c1 encrypt key (inputs_with s.own_random s)
    out ← pdu17 smp_pairing_confirm own_confirm
    ok (out, record s { own_confirm = own_confirm })

  unfoldable pub handle_random : List ℕ → Smp → Result ⊥ (Result SmpError (List ℕ) × Smp)
  handle_random body s = if ltb (length body) 17 then ok (err invalid_smp_pdu, s) else (do
    part ← slice body 1 17
    peer_random ← copy_to s.peer_random 0 16 part
    let s : Smp = record s { peer_random = peer_random }
    key ← tk s
    expected ← c1 encrypt key (inputs_with s.peer_random s)
    if not (bytes_eq expected s.peer_confirm)
        then ok (err confirm_mismatch, record s { pairing_failed = smp_reason_confirm })
        else (do
          stk ← s1 encrypt key s.own_random s.peer_random
          let s : Smp = record s { stk = stk; state = waiting_start_enc; pairing_failed = 0 }
          out ← pdu17 smp_pairing_random s.own_random
          ok (ok out, s)))
