-- ===== src/Tests/Host.antt =====
-- The command handler and the forwarding of events at concrete states.
use nrf_ble.Base.{
  ℕ, zero, suc, ◌+◌, ◌%◌, ◌<◌, ◌≡◌, refl, arith, [], ◌∷◌, get_elem?, replicate, false, none, some,
}
use nrf_ble.Base.Results.{ok}
use nrf_ble.Hci.{HciPacket, hci_command}
use nrf_ble.Hci.Handler
use nrf_ble.Hci.Handler.{Hci, handle_command, tick}
use nrf_ble.Hci.Handler.Calls.{IsReady}
use nrf_ble.Hci.Handler.Commands.{Answers, handle_command-Answers}
use nrf_ble.Hci.Handler.Forward.{none_left, and_then, wire, tick-forwards}
use nrf_ble.Hw.Ble
use nrf_ble.Hw.Ble.{Ble, BleEvent, Report, scan_report}
use nrf_ble.Hw.Ble.Events.{Pending}
use nrf_ble.Hw.Queue.{Queue}
use nrf_ble.Ll.Addr.{random_static}
use nrf_ble.Hw.Ble.Link.{conn_is_master}
use nrf_ble.Hw.Queue.Laws.{Holds, empty-Holds}
use nrf_ble.Tests.Radio.{io_with}

abbrev stack : Ble
stack = Ble.new (io_with (40 ∷ []) [])

stack-IsReady : IsReady stack
unfolding Ble.new
stack-IsReady = record {
  adv_data = refl;
  scan_rsp = refl;
  pending = [];
  held = empty-Holds 8 (omega arith);
  room = omega arith;
  t = 40;
  later = [];
  readings = refl;
}

-- LE Set Advertising Enable
abbrev enable : HciPacket
enable = record {
  packet_type = hci_command;
  payload = 0x0A ∷ 0x20 ∷ 1 ∷ 1 ∷ replicate 256 0;
  len = 4;
}

handle_command-Answers_example :
    (h' : Hci) × (b' : Ble) × (evt : HciPacket) × (handle_command enable Handler.new stack
      ≡ ok (h', b'))
    × Holds 16 h'.events (evt ∷ [])
    × Answers (0x0A, 0x20) evt
unfolding Handler.new
handle_command-Answers_example =
    handle_command-Answers enable 0x0A 0x20 1 (1 ∷ []) (replicate 256 0) Handler.new stack [] refl
      refl (empty-Holds 16 (omega arith)) (omega arith) refl stack-IsReady

abbrev heard : Report
heard = record {
  addr = 1 ∷ 2 ∷ 3 ∷ 4 ∷ 5 ∷ 0xC6 ∷ [];
  addr_type = random_static;
  adv_type = 0;
  rssi = 60;
  report = 2 ∷ 1 ∷ 6 ∷ replicate 28 0;
  report_len = 3;
}

abbrev one_report : Queue BleEvent
one_report = record {
  events = some (scan_report heard) ∷ none ∷ none ∷ none ∷ none ∷ none ∷ none ∷ none ∷ [];
  event_head = 1;
  event_tail = 0;
}

one_content :
    (k : ℕ)
    → k < 8
    → get_elem? one_report.events ((0 + k) % 8) ≡ some (get_elem? (scan_report heard ∷ []) k)
one_content zero small = refl
one_content (suc zero) small = refl
one_content (suc (suc zero)) small = refl
one_content (suc (suc (suc zero))) small = refl
one_content (suc (suc (suc (suc zero)))) small = refl
one_content (suc (suc (suc (suc (suc zero))))) small = refl
one_content (suc (suc (suc (suc (suc (suc zero)))))) small = refl
one_content (suc (suc (suc (suc (suc (suc (suc zero))))))) small = refl
one_content (suc (suc (suc (suc (suc (suc (suc (suc k)))))))) small = absurd (omega arith)

one_report-Holds : Holds 8 one_report (scan_report heard ∷ [])
one_report-Holds = record {
  slots = refl;
  fewer = omega arith;
  tail = omega arith;
  head = refl;
  content = one_content;
}

abbrev reporting : Ble
reporting = record stack { events = one_report }

tick-forwards_example :
    (h' : Hci) × (b' : Ble) × (tick reporting Handler.new ≡ ok (h', b'))
    × Pending b' []
    × Holds 16 h'.events (wire false (scan_report heard))
    × (h'.connection_open ≡ false)
unfolding Handler.new Ble.new conn_is_master
tick-forwards_example =
    tick-forwards reporting Handler.new (scan_report heard ∷ []) [] one_report-Holds
      (and_then (record { addr = refl; report = refl; report_len = omega arith }) none_left)
      (empty-Holds 16 (omega arith)) (omega arith)
