-- ===== src/Tests/Timing.antt =====
-- Channels, intervals and the event queue.
use nrf_ble.Base.{ℕ, ◌*◌, ◌/◌, ◌≡◌, arith, List, [], ◌∷◌}
use nrf_ble.Base.Results.{ok}
use nrf_ble.Hw.Timers.{new, new_125ms}
use nrf_ble.Hw.Timers.Laws.{run, sum, run_lem}
use nrf_ble.Hw.Queue.{Queue, empty, push_event}
use nrf_ble.Hw.Queue.Laws.{Holds, empty-Holds, push_event-ok}

abbrev schedule : List ℕ
schedule = 33 ∷ 100 ∷ 65535 ∷ []

run_lem_example :
    ((run new schedule).0 ≡ sum schedule * 625 / 32)
    × ((run new_125ms schedule).0 ≡ sum schedule * 1250 / 32)
run_lem_example = run_lem schedule (omega arith)

push_event-ok_example : (q' : Queue ℕ) × (push_event 8 (empty 8) 5 ≡ ok q') × Holds 8 q' (5 ∷ [])
push_event-ok_example = push_event-ok 8 (empty 8) [] 5 (empty-Holds 8 (omega arith)) (omega arith)
