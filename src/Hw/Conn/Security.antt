-- ===== src/Hw/Conn/Security.antt =====
-- The pairing messages of a connection: `handle_smp` and `queue_encrypt_req` of src/hw/conn.rs.
pub mod Random
use nrf_ble.Base.{
  ℕ, ◌+◌, min, ◌==◌, ◌||◌, if◌then◌else◌, List, [], ◌∷◌, ◌++◌, length, replicate, Bool, true, false,
  Option, none, some,
}
use nrf_ble.Base.Results.{Result, ok, err, panic, ◌>>=◌, slice}
use nrf_ble.Ll.Pdu.Fields.{le16}
use nrf_ble.Hw.Smp.State.{
  Smp, SmpError, build_failed, smp_pairing_request, smp_pairing_response, smp_pairing_confirm,
  smp_pairing_random, smp_pairing_failed, smp_security_request,
}
use nrf_ble.Hw.Smp.Pairing.{
  build_pairing_request, handle_pairing_request, handle_pairing_response, handle_confirm,
  build_confirm, handle_random,
}
use nrf_ble.Hw.Conn.Tx.{Tx, queue_l2cap}
use nrf_ble.Hw.Conn.Control.Opcode

abbrev pub l2cap_smp_cid : ℕ
l2cap_smp_cid = 6

-- The fields of `Conn` that these methods use; `master` is the role.
pub record Security : Type 0 where
  pub smp : Smp
  pub tx : Tx
  pub master : Bool
  pub pairing_in_progress : Bool
  pub pending_control : Option (List ℕ)
  pub want_encrypt : Bool

-- The message with a header before it, as `handle_smp` queues it.
abbrev pub framed : List ℕ → List ℕ
framed out = le16 (length out) ++ le16 l2cap_smp_cid ++ out

abbrev pub queue : List ℕ → Security → Result ⊥ Security
queue out c = do tx ← queue_l2cap (framed out) l2cap_smp_cid c.tx; ok (record c { tx = tx })

unfoldable pub queue_encrypt_req : Security → Security
queue_encrypt_req c = record c {
  pending_control = some (Opcode.encrypt_req ∷ replicate 18 0);
  want_encrypt = true;
}

-- `&body[..body.len().min(n)]`
abbrev pub front : List ℕ → ℕ → Result ⊥ (List ℕ)
front body n = slice body 0 (min (length body) n)

unfoldable pub on_request : List ℕ → Security → Result ⊥ Security
on_request body c = do
  part ← front body 7
  (result, smp) ← handle_pairing_request part c.smp
  answer result (record c { smp = smp })
  where
    answer : Result SmpError (List ℕ) → Security → Result ⊥ Security
    answer (ok rsp) c = queue rsp (record c { pairing_in_progress = true })
    answer (err e) c = ok c
    answer panic c = panic

unfoldable pub on_response : List ℕ → Security → Result ⊥ Security
on_response body c = do
  part ← front body 7
  (result, smp) ← handle_pairing_response part c.smp
  answer result (record c { smp = smp })
  where
    answer : Result SmpError (Unit {0}) → Security → Result ⊥ Security
    answer (ok done) c = ok (record c { pairing_in_progress = true })
    answer (err e) c = ok c
    answer panic c = panic

module _ (encrypt : List ℕ → List ℕ → List ℕ) where
  unfoldable pub on_confirm : List ℕ → Security → Result ⊥ Security
  on_confirm body c = do
    part ← front body 17
    (result, smp) ← handle_confirm part c.smp
    answer result (record c { smp = smp })
    where
      answer : Result SmpError (Unit {0}) → Security → Result ⊥ Security
      answer (ok done) c = do
        (out, smp) ← build_confirm encrypt c.smp.iat c.smp.ia c.smp.ra c.smp
        queue out (record c { smp = smp })
      answer (err e) c = ok c
      answer panic c = panic

  -- The end of `handle_smp` for a random value.
  abbrev pub after_random : Result SmpError (List ℕ) → Security → Result ⊥ Security
  after_random (ok out) c = do
    c ← queue out c
    let c : Security = record c { pairing_in_progress = false }
    ok (if c.master then queue_encrypt_req c else c)
  after_random (err e) c = do
    c ← queue (build_failed c.smp.pairing_failed) c
    ok (record c { pairing_in_progress = false })
  after_random panic c = panic

  unfoldable pub on_random : List ℕ → Security → Result ⊥ Security
  on_random body c = do
    part ← front body 17
    (result, smp) ← handle_random encrypt part c.smp
    after_random result (record c { smp = smp })

  unfoldable pub handle_smp : List ℕ → Security → Result ⊥ Security
  handle_smp [] c = ok c
  handle_smp (op ∷ rest) c =
      let body = op ∷ rest in
      if op == smp_pairing_failed
      then ok (record c { pairing_in_progress = false })
      else if op == smp_security_request
      then (do let (req, smp) = build_pairing_request c.smp; queue req (record c { smp = smp }))
      else if op == smp_pairing_request
      then on_request body c
      else if op == smp_pairing_response
      then on_response body c
      else if op == smp_pairing_confirm
      then on_confirm body c
      else if op == smp_pairing_random
      then on_random body c
      else ok c
