-- ===== src/Hw/Ble/Events.antt =====
-- The events of `Ble` as a list: what `push` and `next_event` do to it.
use nrf_ble.Base.{◌+◌, ◌<◌, ◌≡◌, List, [], ◌∷◌, ◌++◌, length}
use nrf_ble.Base.Results.{ok}
use nrf_ble.Hw.Ble.{Ble, BleEvent, push}
use nrf_ble.Hw.Queue.{Queue}
use nrf_ble.Hw.Queue.Laws.{Holds, push_event-ok}

-- The queue of the stack has these events, the oldest first.
abbrev pub Pending : Ble → List BleEvent → Type 0
Pending b xs = Holds 8 b.events xs

pub push-ok :
    {E : Type 0} (b : Ble) (xs : List BleEvent) (evt : BleEvent)
    → Pending b xs
    → length xs + 1 < 8
    → (q : Queue BleEvent) × (push {E = E} evt b ≡ ok (record b { events = q }))
      × Holds 8 q (xs ++ evt ∷ [])
unfolding push
push-ok b xs evt h room =
    let (q, e, held) = push_event-ok 8 b.events xs evt h room in (q, rw e, held)
