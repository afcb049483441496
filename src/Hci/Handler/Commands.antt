-- ===== src/Hci/Handler/Commands.antt =====
-- Every command is answered.
use mathlib.Core.Path.{subst}
use nrf_ble.Base.{
  ℕ, zero, ◌+◌, ◌*◌, ◌/◌, ◌^◌, ◌≤◌, ◌<◌, ◌≡◌, refl, ap, sym, ◌∙◌, arith, bit_and, bit_or, ◌==◌,
  List, [], ◌∷◌, ◌++◌, length, length-replicate, replicate, Bool, inl, inr, ◌⊎◌, if◌then◌else◌,
}
use nrf_ble.Base.Results.{Result, ok, lift, ◌>>=◌, copy_to}
use nrf_ble.Base.Sizes.{if_cases, copy_to_kept}
use nrf_ble.Base.Slices.{slice-append}
use nrf_ble.Hci.{HciPacket}
use nrf_ble.Hci.Handler.Answers.{completes, status_of, command_complete-ok, command_status-ok}
use nrf_ble.Hci.Handler.Calls.{
  Yields, IsReady, set_adv_data-Yields, set_adv_enable-Yields, set_scan_enable-Yields,
  create_connection-Yields, set_random_address-Yields,
}
use nrf_ble.Hci.Handler.{
  Hci, command_status, Handled, complete, on_host, on_le, set_adv_data, set_adv_enable,
  set_scan_enable, create_connection, set_random_address, handle_command, enables, ogf_host, ogf_le,
  ocf_read_local_version, ocf_read_bd_addr, ocf_read_buffer_size, ocf_le_set_adv_data,
  ocf_le_set_adv_params, ocf_le_set_adv_enable, ocf_le_set_scan_params, ocf_le_set_scan_enable,
  ocf_le_create_connection, ocf_le_set_random_address,
}
use nrf_ble.Hw.Ble.{Ble}
use nrf_ble.Hw.Io.{Blocked}
use nrf_ble.Hw.Queue.Laws.{Holds}

-- The answer to a command: complete without an error, or a status without one.
abbrev pub Answers : ℕ × ℕ → HciPacket → Type 0
Answers op evt = ((params : List ℕ) × (evt ≡ completes op 0 params)) ⊎ (evt ≡ status_of op 0)

-- A handler returns, with exactly one more event, an answer.
abbrev pub Answered : ℕ × ℕ → List HciPacket → Handled → Type 0
Answered op ys r =
    (h : Hci) × (b : Ble) × (evt : HciPacket) × (r ≡ ok (h, b))
    × Holds 16 h.events (ys ++ evt ∷ [])
    × Answers op evt

module _ (op : ℕ × ℕ) (ys : List HciPacket) (room : length ys + 1 < 16) where
  completed :
      (params : List ℕ) (h : Hci) (b : Ble)
      → Holds 16 h.events ys
      → length params ≤ 250
      → Answered op ys (complete op params h b)
  completed params h b held short =
      let (q, e, held') = command_complete-ok h ys held room op 0 params short in
      (record h { events = q }, b, _, rw e refl, held', inl (params, refl))

  -- Either branch of a test.
  choose :
      (t : Bool) (x y : Handled)
      → Answered op ys x
      → Answered op ys y
      → Answered op ys (if t then x else y)
  choose t x y hx hy = if_cases (Answered op ys) t x y (λ e. hx) (λ e. hy)

  moved : (r r' : Handled) → r' ≡ r → Answered op ys r → Answered op ys r'
  moved r r' p (h, b, evt, e, held, answers) = (h, b, evt, p ∙ e, held, answers)

  -- A call of the stack first.
  behind :
      (m : Result Blocked Ble) (k : Ble → Handled)
      → Yields m
      → ((b : Ble) → Answered op ys (k b))
      → Answered op ys (m >>= k)
  behind m k (b, e) h = moved (k b) (m >>= k) (ap (λ t. t >>= k) e) (h b)

  on_host-Answered :
      (ocf : ℕ) (h : Hci) (b : Ble)
      → Holds 16 h.events ys
      → length h.own_addr ≡ 6
      → Answered op ys (on_host ocf op h b)
  on_host-Answered ocf h b held size =
      let z = length-replicate 6 zero in
      let (own, written, k) =
        copy_to_kept {E = Blocked} (replicate 6 0) 0 6 h.own_addr (omega arith) (omega arith) in
      let version : List ℕ = 0x0C ∷ 0 ∷ 0 ∷ 0 ∷ 0 ∷ 0 ∷ 0 ∷ 0 ∷ [] in
      let own_short : length own ≤ 250 = omega arith in
      let with_own =
        moved (complete op own h b)
          (copy_to (replicate 6 0) 0 6 h.own_addr >>= λ t. complete op t h b)
          (ap (λ r. r >>= λ t. complete op t h b) written) (completed own h b held own_short) in
      let other =
        choose (ocf == ocf_read_buffer_size) (complete op (replicate 8 0) h b) (complete op [] h b)
          (completed (replicate 8 0) h b held (omega arith))
          (completed [] h b held (omega arith)) in
      choose (ocf == ocf_read_local_version) _ _ (completed version h b held (omega arith))
        (choose (ocf == ocf_read_bd_addr) _ _ with_own other)

  status_sent :
      (h : Hci) (b : Ble)
      → Holds 16 h.events ys
      → Answered op ys (do h ← lift (command_status op 0 h); ok (h, b))
  status_sent h b held =
      let (q, e, held') = command_status-ok h ys held room op 0 in
      (record h { events = q }, b, _, rw e refl, held', inr refl)

  on_le-Answered :
      (ocf : ℕ) (params : List ℕ) (h : Hci) (b : Ble)
      → Holds 16 h.events ys
      → IsReady b
      → Answered op ys (on_le ocf op params h b)
  on_le-Answered ocf params h b held r =
      let P : Handled → Type 0 = Answered op ys in
      let plain : (h : Hci) → Holds 16 h.events ys → (b : Ble) → P (complete op [] h b) =
        λ h held b. completed [] h b held (omega arith) in
      let enabled : Hci = record h { adv_enabled = enables params } in
      let scanning : Hci = record h { scan_enabled = enables params } in
      let (h', takes, same) = set_random_address-Yields params h in
      let held' : Holds 16 h'.events ys = subst (λ q. Holds 16 q ys) (sym same) held in
      let with_address =
        moved (complete op [] h' b) (set_random_address params h >>= λ h. complete op [] h b)
          (ap (λ r. r >>= λ h. complete op [] h b) takes) (plain h' held' b) in
      choose (ocf == ocf_le_set_adv_data) _ _
        (behind (set_adv_data params b) _ (set_adv_data-Yields params b r) (plain h held))
        (choose (ocf == ocf_le_set_adv_params) _ _ (plain h held b) (
          choose (ocf == ocf_le_set_adv_enable) _ _
            (behind (set_adv_enable params b) _ (set_adv_enable-Yields params b r)
              (plain enabled held))
            (choose (ocf == ocf_le_set_scan_params) _ _ (plain h held b) (
              choose (ocf == ocf_le_set_scan_enable) _ _
                (behind (set_scan_enable params b) _ (set_scan_enable-Yields params b r)
                  (plain scanning held))
                (choose (ocf == ocf_le_create_connection) _ _
                  (behind (create_connection params b) _ (create_connection-Yields params b r)
                    (λ b. status_sent h b held))
                  (choose (ocf == ocf_le_set_random_address) _ _ with_address (plain h held b)))))))

-- A command packet with its opcode and its parameters, behind which anything stands; the queue of
-- answers has room for one besides the free slot, the address its six bytes, and the stack can take a
-- call. Whatever the opcode and the parameters, `handle_command` returns, and exactly one event has
-- been queued, behind the others: the answer to this opcode, without an error, also if the call that
-- the command stands for failed.
pub handle_command-Answers :
    (packet : HciPacket) (op0 op1 n : ℕ) (params rest : List ℕ) (h : Hci) (b : Ble)
    (ys : List HciPacket)
    → packet.payload ≡ (op0 ∷ op1 ∷ n ∷ []) ++ params ++ rest
    → packet.len ≡ 3 + length params
    → Holds 16 h.events ys
    → length ys + 1 < 16
    → length h.own_addr ≡ 6
    → IsReady b
    → (h' : Hci) × (b' : Ble) × (evt : HciPacket) × (handle_command packet h b ≡ ok (h', b'))
      × Holds 16 h'.events (ys ++ evt ∷ [])
      × Answers (op0, op1) evt
unfolding handle_command
handle_command-Answers packet op0 op1 n params rest h b ys bytes len held room size r =
    let op : ℕ × ℕ = (op0, op1) in
    let opcode = bit_or op0 (op1 * 2 ^ 8) in
    let ocf = bit_and opcode 0x03FF in
    let ogf = bit_and (opcode / 2 ^ 10) 0x3F in
    let part =
      slice-append {E = Blocked} (op0 ∷ op1 ∷ n ∷ []) params rest 3 (3 + length params) refl refl in
    let answers =
      choose op ys room (ogf == ogf_host) (on_host ocf op h b)
        (if ogf == ogf_le then on_le ocf op params h b else complete op [] h b)
        (on_host-Answered op ys room ocf h b held size)
        (choose op ys room (ogf == ogf_le) (on_le ocf op params h b) (complete op [] h b)
          (on_le-Answered op ys room ocf params h b held r)
          (completed op ys room [] h b held (omega arith))) in
    moved op ys room _ (handle_command packet h b) (simp (bytes, len, part) refl) answers
