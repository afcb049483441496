-- ===== src/Hw/Ble/Calls/Parts.antt =====
-- The parts of a sound state that calls change.
use nrf_ble.Base.{
  ℕ, ◌+◌, ◌%◌, ◌<◌, ◌≡◌, ◌≢◌, refl, arith, ◌==◌, List, [], ◌∷◌, length, Option, none, some, inl,
  inr, ◌⊎◌, if◌then◌else◌,
}
use nrf_ble.Base.Results.{index, ok, err}
use nrf_ble.Base.Sizes.{put_kept}
use nrf_ble.Base.Slices.{index-ok}
use nrf_ble.Ll.AcceptList.Laws.{IsAcceptList}
use nrf_ble.Ll.AcceptList.{AcceptList}
use nrf_ble.Ll.Addr.{AddrType}
use nrf_ble.Hw.Ble.{Ble, BleEvent, AdvParams, ScanParams, RunState, idle, push}
use nrf_ble.Hw.Ble.Calls.{IsQueue, HasData, CanScan, IsSound}
use nrf_ble.Hw.Ble.Gap.Lifecycle.{IsValid}
use nrf_ble.Hw.Io.{Io, Blocked, blocked, now, read_timer}
use nrf_ble.Hw.Queue
use nrf_ble.Hw.Queue.{Queue}
use nrf_ble.Hw.Timers.{IntervalAccum}

pub push-kept :
    (b : Ble) (evt : BleEvent)
    → IsQueue b.events
    → (q : Queue BleEvent) × (push {E = Blocked} evt b ≡ ok (record b { events = q })) × IsQueue q
unfolding push Queue.push_event
push-kept b evt h =
    let size = h.slots in
    let head = h.head in
    let tail = h.tail in
    let q = b.events in
    let place = (q.event_head + 1) % 8 in
    let (slots, written, same) = put_kept {E = ⊥} q.events q.event_head (some evt) (omega arith) in
    let q' : Queue BleEvent = record {
      events = slots;
      event_head = place;
      event_tail = if place == q.event_tail then (q.event_tail + 1) % 8 else q.event_tail;
    } in
    (q', simp written refl, record { slots = omega arith; head = omega arith; tail = ground arith })

-- Taking the event of the last place, or none.
take_lem :
    (q : Queue BleEvent) (evt : Option BleEvent)
    → IsQueue q
    → index {E = ⊥} q.events q.event_tail ≡ ok evt
    → (q' : Queue BleEvent) × (Queue.next_event 8 q ≡ ok (evt, q')) × IsQueue q'
unfolding Queue.next_event
take_lem q none h reads =
    let size = h.slots in
    let tail = h.tail in
    let (slots, written, same) = put_kept {E = ⊥} q.events q.event_tail none (omega arith) in
    (
      record q { events = slots },
      simp (reads, written) refl,
      record { slots = omega arith; head = h.head; tail = h.tail },
    )
take_lem q (some e) h reads =
    let size = h.slots in
    let tail = h.tail in
    let (slots, written, same) = put_kept {E = ⊥} q.events q.event_tail none (omega arith) in
    (
      record q { events = slots; event_tail = (q.event_tail + 1) % 8 },
      simp (reads, written) refl,
      record { slots = omega arith; head = h.head; tail = omega arith },
    )

pub next_event-kept :
    (q : Queue BleEvent)
    → IsQueue q
    → (evt : Option BleEvent) × (q' : Queue BleEvent) × (Queue.next_event 8 q ≡ ok (evt, q'))
      × IsQueue q'
next_event-kept q h =
    let size = h.slots in
    let tail = h.tail in
    let (evt, reads) = index-ok {E = ⊥} q.events q.event_tail (omega arith) in
    let (q', takes, kept) = take_lem q evt h reads in (evt, q', takes, kept)

read_cases :
    (readings : List ℕ) (io : Io)
    → ((t : ℕ) × (io' : Io) × (read_timer readings io ≡ ok (t, io')))
      ⊎ (read_timer readings io ≡ err blocked)
read_cases [] io = inr refl
read_cases (t ∷ later) io = inl (t, _, refl)

pub now_cases : (io : Io) → ((t : ℕ) × (io' : Io) × (now io ≡ ok (t, io'))) ⊎ (now io ≡ err blocked)
unfolding now
now_cases io = read_cases io.timer.readings io

-- A sound state with another part of it.
pub with_data :
    (b : Ble) (xs : List ℕ) (n : ℕ) (zs : List ℕ) (m : ℕ)
    → IsSound b
    → HasData xs n zs m
    → IsSound (record b { adv_data = xs; adv_data_len = n; scan_rsp = zs; scan_rsp_len = m })
with_data b xs n zs m s h = record {
  payloads = h;
  tx_size = s.tx_size;
  rx_size = s.rx_size;
  address = s.address;
  queue = s.queue;
  devices = s.devices;
  channel = s.channel;
  advertises = s.advertises;
  scans = s.scans;
}

pub with_queue :
    (b : Ble) (q : Queue BleEvent) → IsSound b → IsQueue q → IsSound (record b { events = q })
with_queue b q s h = record {
  payloads = s.payloads;
  tx_size = s.tx_size;
  rx_size = s.rx_size;
  address = s.address;
  queue = h;
  devices = s.devices;
  channel = s.channel;
  advertises = s.advertises;
  scans = s.scans;
}

pub with_address :
    (b : Ble) (addr : List ℕ) (kind : AddrType) (io : Io)
    → IsSound b
    → length addr ≡ 6
    → IsSound (record b { own_addr = addr; own_addr_type = kind; io = io })
with_address b addr kind io s h = record {
  payloads = s.payloads;
  tx_size = s.tx_size;
  rx_size = s.rx_size;
  address = h;
  queue = s.queue;
  devices = s.devices;
  channel = s.channel;
  advertises = s.advertises;
  scans = s.scans;
}

pub with_devices :
    (b : Ble) (devices : AcceptList)
    → IsSound b
    → IsAcceptList devices
    → IsSound (record b { devices = devices })
with_devices b devices s h = record {
  payloads = s.payloads;
  tx_size = s.tx_size;
  rx_size = s.rx_size;
  address = s.address;
  queue = s.queue;
  devices = h;
  channel = s.channel;
  advertises = s.advertises;
  scans = s.scans;
}

-- Parts that no other part depends on.
pub with_free :
    (b : Ble) (irk target : Option (List ℕ)) (kind : AddrType) (io : Io)
    → IsSound b
    → IsSound (record b { irk = irk; connect_target = target; connect_target_type = kind; io = io })
with_free b irk target kind io s = record {
  payloads = s.payloads;
  tx_size = s.tx_size;
  rx_size = s.rx_size;
  address = s.address;
  queue = s.queue;
  devices = s.devices;
  channel = s.channel;
  advertises = s.advertises;
  scans = s.scans;
}

pub with_adv :
    (b : Ble) (state : RunState) (params : AdvParams) (own : AddrType) (idx : ℕ)
    (accum : IntervalAccum) (io : Io)
    → IsSound b
    → idx < 3
    → (state ≢ idle → IsValid params)
    → IsSound (record b {
      adv_state = state;
      adv_params = params;
      own_addr_type = own;
      adv_channel_idx = idx;
      adv_accum = accum;
      io = io;
    })
with_adv b state params own idx accum io s below h = record {
  payloads = s.payloads;
  tx_size = s.tx_size;
  rx_size = s.rx_size;
  address = s.address;
  queue = s.queue;
  devices = s.devices;
  channel = below;
  advertises = h;
  scans = s.scans;
}

pub with_scan :
    (b : Ble) (state : RunState) (params : ScanParams) (own : AddrType) (idx : ℕ)
    (accum : IntervalAccum) (io : Io)
    → IsSound b
    → (state ≢ idle → CanScan params)
    → IsSound (record b {
      scan_state = state;
      scan_params = params;
      own_addr_type = own;
      scan_channel_idx = idx;
      scan_accum = accum;
      io = io;
    })
with_scan b state params own idx accum io s h = record {
  payloads = s.payloads;
  tx_size = s.tx_size;
  rx_size = s.rx_size;
  address = s.address;
  queue = s.queue;
  devices = s.devices;
  channel = s.channel;
  advertises = s.advertises;
  scans = h;
}
