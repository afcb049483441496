-- ===== src/Hci/Handler/Answers.antt =====
-- The events that answer a command.
use nrf_ble.Base.{
  ℕ, zero, ◌+◌, ◌%◌, ◌≤◌, ◌<◌, ◌≡◌, refl, arith, List, [], ◌∷◌, ◌++◌, length, length-replicate,
  drop, replicate,
}
use nrf_ble.Base.Results.{ok}
use nrf_ble.Base.Slices.{copy_to_fill, slice_prefix}
use nrf_ble.Hci.{HciPacket, hci_event, event, payload_max}
use nrf_ble.Hci.Handler.{
  Hci, command_complete, command_status, push_event, hci_evt_command_complete,
  hci_evt_command_status,
}
use nrf_ble.Hw.Queue.{Queue}
use nrf_ble.Hw.Queue.Laws.{Holds, push_event-ok}

abbrev pub blank : List ℕ
blank = replicate payload_max 0

-- The packet of an event.
abbrev pub event_packet : ℕ → List ℕ → HciPacket
event_packet code payload = record {
  packet_type = hci_event;
  payload = (code ∷ length payload ∷ []) ++ payload ++ drop (2 + length payload) blank;
  len = 2 + length payload;
}

pub event-ok :
    (code : ℕ) (payload : List ℕ)
    → length payload ≤ 255
    → event code payload ≡ ok (event_packet code payload)
unfolding event
event-ok code payload short =
    let n = length payload in
    let small : n % 256 ≡ n = omega arith in
    let z = length-replicate payload_max zero in
    let filled =
      copy_to_fill {E = ⊥} (code ∷ n ∷ []) blank 2 (2 + n) refl payload refl (omega arith) in
    rw (small, filled) refl

abbrev pub completes : ℕ × ℕ → ℕ → List ℕ → HciPacket
completes (op0, op1) status params =
    event_packet hci_evt_command_complete (1 ∷ op0 ∷ op1 ∷ status ∷ params)

abbrev pub status_of : ℕ × ℕ → ℕ → HciPacket
status_of (op0, op1) status = event_packet hci_evt_command_status (status ∷ 1 ∷ op0 ∷ op1 ∷ 0 ∷ [])

module _ (h : Hci) (ys : List HciPacket) (held : Holds 16 h.events ys)
    (room : length ys + 1 < 16) where
  pub command_complete-ok :
      (op : ℕ × ℕ) (status : ℕ) (params : List ℕ)
      → length params ≤ 250
      → (q : Queue HciPacket) × (command_complete op status params h ≡ ok (record h { events = q }))
        × Holds 16 q (ys ++ completes op status params ∷ [])
  unfolding command_complete push_event
  command_complete-ok (op0, op1) status params short =
      let n = length params in
      let four = 1 ∷ op0 ∷ op1 ∷ status ∷ [] in
      let z = length-replicate 260 zero in
      let second = copy_to_fill {E = ⊥} four blank 4 (4 + n) refl params refl (omega arith) in
      let part = slice_prefix {E = ⊥} (four ++ params) (drop (4 + n) blank) (4 + n) (omega arith) in
      let (q, pushed, held') =
        push_event-ok 16 h.events ys (completes (op0, op1) status params) held room in
      (
        q,
        simp
            (second, part, event-ok hci_evt_command_complete (four ++ params) (omega arith), pushed)
            refl,
        held',
      )

  pub command_status-ok :
      (op : ℕ × ℕ) (status : ℕ)
      → (q : Queue HciPacket) × (command_status op status h ≡ ok (record h { events = q }))
        × Holds 16 q (ys ++ status_of op status ∷ [])
  unfolding command_status push_event
  command_status-ok (op0, op1) status =
      let (q, pushed, held') =
        push_event-ok 16 h.events ys (status_of (op0, op1) status) held room in
      (
        q,
        simp
            (
              event-ok hci_evt_command_status (status ∷ 1 ∷ op0 ∷ op1 ∷ 0 ∷ []) (omega arith),
              pushed,
            )
            refl,
        held',
      )
