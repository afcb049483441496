-- ===== src/Hw/Queue.antt =====
-- The event queues: `push_event` and `next_event` of src/hw/ble.rs, with 8 slots, and those of
-- src/hci.rs, which are the same code with 16.
pub mod Slots
pub mod Laws
use nrf_ble.Base.{ℕ, ◌+◌, ◌%◌, ◌==◌, List, replicate, Option, none, some, if◌then◌else◌}
use nrf_ble.Base.Results.{Result, ok, ◌>>=◌, index, put}

abbrev pub ble_queue_len : ℕ
ble_queue_len = 8

abbrev pub hci_queue_len : ℕ
hci_queue_len = 16

pub record Queue {ℓ} (A : Type ℓ) : Type ℓ where
  pub events : List (Option A)
  pub event_head : ℕ
  pub event_tail : ℕ

module _ {ℓ} {A : Type ℓ} (queue_len : ℕ) where
  unfoldable pub empty : Queue A
  empty = record { events = replicate queue_len none; event_head = 0; event_tail = 0 }

  -- A full queue gives up its oldest event: the tail moves on.
  unfoldable pub push_event : Queue A → A → Result ⊥ (Queue A)
  push_event q evt =
      let next = (q.event_head + 1) % queue_len in
      let tail = if next == q.event_tail then (q.event_tail + 1) % queue_len else q.event_tail in
      (do
        events ← put q.events q.event_head (some evt)
        ok (record { events = events; event_head = next; event_tail = tail }))

  -- `take()` leaves an empty slot behind.
  unfoldable pub next_event : Queue A → Result ⊥ (Option A × Queue A)
  next_event q = do
    evt ← index q.events q.event_tail
    events ← put q.events q.event_tail none
    ok (elim evt [
      | none ↦ (none, record q { events = events })
      | some e ↦ (
        some e,
        record {
          events = events;
          event_head = q.event_head;
          event_tail = (q.event_tail + 1) % queue_len;
        },
      )
    ])
