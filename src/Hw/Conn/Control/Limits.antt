-- ===== src/Hw/Conn/Control/Limits.antt =====
-- Control PDUs keep the limits of a connection, and none panics.
use nrf_ble.Base.{
  ℕ, ◌≤◌, ◌≡◌, ◌≢◌, refl, ap, ◌∙◌, arith, ◌==◌, ==→eq, ◌||◌, List, [], ◌∷◌, length, replicate, Bool,
  true,
}
use nrf_ble.Base.Results.{Result, ok, err, ◌>>=◌}
use nrf_ble.Base.Sizes.{if_cases}
use nrf_ble.Hw.Conn.Control.{
  Control, DisconnectReason, remote_terminate, transmit, write_pdu, tx, set_lengths,
  connection_update, answer, start_encryption, length_response, handle_ll_control,
}
use nrf_ble.Hw.Conn.Control.Kept.{
  IsLimited, Kept, write_kept, transmit_kept, lengths_kept, update_kept, tx_kept,
}

-- The bytes that the handler reads without a test are there.
pub record IsWhole (payload : List ℕ) : Type 0 where
  pub lengths : (rest : List ℕ) → payload ≡ 0x14 ∷ rest → 6 ≤ length rest
  pub lengths' : (rest : List ℕ) → payload ≡ 0x15 ∷ rest → 6 ≤ length rest
  pub update : (rest : List ℕ) → payload ≡ 0x00 ∷ rest → length rest ≢ 9

module _ (block : List ℕ → Bool → List ℕ → Bool × List ℕ)
    (same_size : (cfg : List ℕ) (decrypt : Bool) (pdu : List ℕ)
      → length ((block cfg decrypt pdu).1) ≡ length pdu) where
  abbrev Handled : Result ⊥ (Result DisconnectReason (Unit {0}) × Control) → Type 0
  Handled run =
      (result : Result DisconnectReason (Unit {0})) × (c : Control) × (run ≡ ok (result, c))
      × IsLimited c

  acted :
      (run : Result ⊥ Control) (f : Control → Control)
      → ((c : Control) → IsLimited c → IsLimited (f c))
      → Kept run
      → Handled (run >>= λ c. ok (ok tt, f c))
  acted run f keeps (c, e, limited) =
      (ok tt, f c, ap (λ m. m >>= λ c. ok (ok tt, f c)) e, keeps c limited)

  then_acted :
      (run : Result ⊥ Control)
      (f : Control → Result ⊥ (Result DisconnectReason (Unit {0}) × Control))
      → Kept run
      → ((c : Control) → IsLimited c → Handled (f c))
      → Handled (run >>= f)
  then_acted run f (c, e, limited) next =
      let (result, c', g, limited') = next c limited in
      (result, c', ap (λ m. m >>= f) e ∙ g, limited')

  at_once : (c : Control) → IsLimited c → Handled (ok (ok tt, c))
  at_once c limited = (ok tt, c, refl, limited)

  -- The opcode that a test has found.
  found : (op n : ℕ) (rest : List ℕ) → (op == n) ≡ true → op ∷ rest ≡ n ∷ rest
  found op n rest e = ap (λ k. k ∷ rest) (==→eq op n e)

  version :
      (c : Control)
      → IsLimited c
      → Handled (do
        c ← write_pdu 2 4 (0x0C ∷ 0x0C ∷ 0xFF ∷ 0xFF ∷ 0x00 ∷ 0x00 ∷ []) c
        c ← transmit 8 c
        ok (ok tt, record c { peer_version_ok = true }))
  version c all =
      then_acted _ _
        (write_kept 2 4 (0x0C ∷ 0x0C ∷ 0xFF ∷ 0xFF ∷ 0x00 ∷ 0x00 ∷ []) c (omega arith) all)
        λ c limited.
          acted _ (λ c. record c { peer_version_ok = true }) (λ c h. h)
            (transmit_kept 8 c (omega arith) limited)

  features :
      (c : Control)
      → IsLimited c
      → Handled (do c ← write_pdu 2 9 (0x09 ∷ replicate 8 0) c; c ← transmit 11 c; ok (ok tt, c))
  features c all =
      then_acted _ _ (write_kept 2 9 (0x09 ∷ replicate 8 0) c (omega arith) all)
        λ c limited. acted _ (λ c. c) (λ c h. h) (transmit_kept 11 c (omega arith) limited)

  starts :
      (c : Control)
      → IsLimited c
      → Handled
          (do c ← write_pdu 2 1 (0x06 ∷ 0 ∷ []) c; c ← tx block 3 c; ok (ok tt, start_encryption c))
  starts c all = then_acted _ _ (write_kept 2 1 (0x06 ∷ 0 ∷ []) c (omega arith) all) λ c limited.
      acted _ start_encryption (λ c h. h) (tx_kept block same_size 3 c (omega arith) limited)

  lengths :
      (payload : List ℕ) (c : Control)
      → 7 ≤ length payload
      → IsLimited c
      → Handled (do c ← set_lengths payload c; ok (ok tt, c))
  lengths payload c long all = acted _ (λ c. c) (λ c h. h) (lengths_kept payload c long all)

  update :
      (payload : List ℕ) (c : Control)
      → length payload ≢ 10
      → IsLimited c
      → Handled (do c ← connection_update payload c; ok (ok tt, c))
  update payload c enough all = acted _ (λ c. c) (λ c h. h) (update_kept payload c enough all)

  -- On a connection with buffers of their sizes and payload limits of at most 251, and with a control
  -- PDU that has the bytes which the handler reads without a test, `handle_ll_control` does not
  -- panic, and the sizes and the limits stay, also the 19 bytes of a control PDU that waits: whatever
  -- the opcode, the encryption on or off, and the encryption block succeeding or not, if it keeps
  -- the size of the packet in memory.
  pub handle_ll_control-IsLimited :
      (payload : List ℕ) (c : Control)
      → IsWhole payload
      → IsLimited c
      → (result : Result DisconnectReason (Unit {0})) × (c' : Control) × (handle_ll_control block
            payload c
          ≡ ok (result, c'))
        × IsLimited c'
  unfolding handle_ll_control
  handle_ll_control-IsLimited [] c whole limited = (ok tt, c, refl, limited)
  handle_ll_control-IsLimited (op ∷ rest) c whole (size, a, b, k, g, w) =
      let all : IsLimited c = (size, a, b, k, g, w) in
      if_cases Handled (op == 0x02) _ _ (λ _. (err remote_terminate, c, refl, all))
        λ _.
          if_cases Handled (op == 0x0C) _ _ (λ _. version c all)
            λ _.
              if_cases Handled (op == 0x08 || op == 0x09) _ _ (λ _. features c all)
                λ _.
                  if_cases Handled (op == 0x03) _ _ (λ _. at_once _ (size, a, b, k, g, refl))
                    λ _.
                      if_cases Handled (op == 0x04) _ _ (λ _. at_once _ (size, a, b, k, g, refl))
                        λ _.
                          if_cases Handled (op == 0x05) _ _ (λ _. starts c all)
                            λ _.
                              if_cases Handled (op == 0x06) _ _
                                (λ _. at_once (start_encryption c) all)
                                λ _.
                                  if_cases Handled (op == 0x14) _ _
                                    (λ e.
                                      lengths (op ∷ rest) (answer length_response c)
                                        (omega (arith, whole.lengths rest (found op 0x14 rest e)))
                                        (size, a, b, k, g, refl))
                                    λ _.
                                      if_cases Handled (op == 0x15) _ _
                                        (λ e.
                                          lengths (op ∷ rest) c
                                            (omega
                                              (arith, whole.lengths' rest (found op 0x15 rest e)))
                                            all)
                                        λ _.
                                          if_cases Handled (op == 0x12) _ _
                                            (λ _. at_once _ (size, a, b, k, g, refl))
                                            λ _.
                                              if_cases Handled (op == 0x16) _ _
                                                (λ _. at_once _ (size, a, b, k, g, refl))
                                                λ _.
                                                  if_cases Handled (op == 0x00) _ _
                                                    (λ e.
                                                      update (op ∷ rest) c
                                                        (λ z.
                                                          whole.update rest (found op 0x00 rest e)
                                                            (omega arith))
                                                        all)
                                                    λ _. at_once _ (size, a, b, k, g, refl)
