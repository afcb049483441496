-- ===== src/Hci/Handler/Forward.antt =====
-- What `tick` forwards to the host.
use nrf_ble.Base.{
  ℕ, zero, suc, ◌+◌, ◌-◌, ◌%◌, ◌≤◌, ◌<◌, ◌≡◌, refl, ap, ◌∙◌, arith, min, List, [], ◌∷◌, ◌++◌,
  length, length-append, length-take, le→leb, length-replicate, append-nil, append_assoc, take,
  drop, Bool, true, false, if◌then◌else◌,
}
use nrf_ble.Base.Results.{Result, ok, ◌>>=◌, slice}
use nrf_ble.Base.Slices.{copy_to_fill, put_fill, slice_prefix}
use nrf_ble.Hci.{HciPacket}
use nrf_ble.Hci.Handler.Answers.{blank, event_packet, event-ok}
use nrf_ble.Hci.Handler.{
  Hci, push_event, hci_evt_le_meta, hci_evt_disconnection_complete, hci_le_advertising_report,
  report_payload, connection_payload, reason_code, forward, tick_loop, tick,
}
use nrf_ble.Ll.Addr.{is_random}
use nrf_ble.Hw.Ble
use nrf_ble.Hw.Ble.{
  Ble, BleEvent, Report, scan_report, connected, disconnected, adv_started, adv_stopped,
  scan_started, scan_stopped, conn_data, scan_req_received, connect_req_received, ll_control, l2cap,
  periodic_adv, periodic_synced,
}
use nrf_ble.Hw.Ble.Events.{Pending}
use nrf_ble.Hw.Ble.Link.{conn_is_master}
use nrf_ble.Hw.Queue.{Queue}
use nrf_ble.Hw.Queue.Laws.{Holds, push_event-ok, next_event-ok, next_event-none}

-- A report's arrays have their sizes.
pub record IsReport (r : Report) : Type 0 where
  pub addr : length r.addr ≡ 6
  pub report : length r.report ≡ 31
  pub report_len : r.report_len ≤ 31

-- The advertising report as the host reads it, with at most 27 bytes of data.
abbrev pub report_bytes : Report → List ℕ → List ℕ
report_bytes r part =
    (hci_le_advertising_report ∷ 1 ∷ r.adv_type ∷ (if is_random r.addr_type then 1 else 0) ∷ [])
    ++ r.addr
    ++ (min r.report_len 27 ∷ [])
    ++ part
    ++ (r.rssi ∷ [])

then_ok :
    {A B : Type 0} {m : Result ⊥ A} {a : A} {r : Result ⊥ B} (f : A → Result ⊥ B)
    → m ≡ ok a
    → f a ≡ r
    → (m >>= f) ≡ r
then_ok f e h = ap (λ t. t >>= f) e ∙ h

report_bytes-short :
    (r : Report) (part : List ℕ)
    → length r.addr ≡ 6
    → length part ≤ 27
    → length (report_bytes r part) ≤ 255
report_bytes-short r part six few =
    let kind : ℕ = if is_random r.addr_type then 1 else 0 in
    let four : List ℕ = hci_le_advertising_report ∷ 1 ∷ r.adv_type ∷ kind ∷ [] in
    let p1 : List ℕ = four ++ r.addr in
    let n1 = length-append four r.addr in
    let p2 : List ℕ = p1 ++ (min r.report_len 27 ∷ []) in
    let n2 = length-append p1 (min r.report_len 27 ∷ []) in
    let n3 = length-append p2 part in
    let n4 = length-append (p2 ++ part) (r.rssi ∷ []) in omega arith

report_payload-ok :
    (r : Report)
    → IsReport r
    → report_payload r ≡ ok (report_bytes r (take (min r.report_len 27) r.report))
report_payload-ok r h =
    let addr = h.addr in
    let size = h.report in
    let bound = h.report_len in
    let n = min r.report_len 27 in
    let few : n ≤ 27 = omega arith in
    let small : n % 256 ≡ n = omega arith in
    let z = length-replicate 260 zero in
    let part = take n r.report in
    let same : n - 0 ≡ n = omega arith in
    let cut : slice {E = ⊥} r.report 0 n ≡ ok part =
      rw (le→leb 0 n (omega arith), le→leb n (length r.report) (omega arith))
        (ap (λ (k : ℕ). ok (take k r.report)) same) in
    let np = length-take n r.report in
    let kind : ℕ = if is_random r.addr_type then 1 else 0 in
    let four : List ℕ = hci_le_advertising_report ∷ 1 ∷ r.adv_type ∷ kind ∷ [] in
    let p1 : List ℕ = four ++ r.addr in
    let n1 = length-append four r.addr in
    let p2 : List ℕ = p1 ++ (n % 256 ∷ []) in
    let n2 = length-append p1 (n % 256 ∷ []) in
    let p3 : List ℕ = p2 ++ part in
    let n3 = length-append p2 part in
    let p4 : List ℕ = p3 ++ (r.rssi ∷ []) in
    let n4 = length-append p3 (r.rssi ∷ []) in
    then_ok _ (copy_to_fill four blank 4 10 refl r.addr (omega arith) (omega arith)) (
      then_ok _ (put_fill p1 blank 10 11 (omega arith) (n % 256) (omega arith) (omega arith)) (
        then_ok _ cut (
          then_ok _
            (copy_to_fill p2 blank 11 (11 + n) (omega arith) part (omega arith) (omega arith))
            (then_ok _
              (put_fill p3 blank (11 + n) (11 + n + 1) (omega arith) r.rssi (omega arith)
                (omega arith))
              (slice_prefix p4 (drop (11 + n + 1) blank) (11 + n + 1) (omega arith)
                ∙ ap (λ (k : ℕ). ok (p1 ++ (k ∷ []) ++ part ++ (r.rssi ∷ []))) small)))))

-- The events for the host, of a stack that is a master or not.
abbrev pub wire : Bool → BleEvent → List HciPacket
wire master (scan_report r) =
    event_packet hci_evt_le_meta (report_bytes r (take (min r.report_len 27) r.report)) ∷ []
wire master (connected conn) = event_packet hci_evt_le_meta (connection_payload master conn) ∷ []
wire master (disconnected reason) =
    event_packet hci_evt_disconnection_complete (0 ∷ 0 ∷ 0 ∷ reason_code reason ∷ []) ∷ []
wire master _ = []

abbrev pub wires : Bool → List BleEvent → List HciPacket
wires master [] = []
wires master (evt ∷ later) = wire master evt ++ wires master later

-- Whether a connection is open behind an event.
abbrev pub opens : Bool → BleEvent → Bool
opens was_open (connected conn) = true
opens was_open (disconnected reason) = false
opens was_open _ = was_open

abbrev pub opens_all : Bool → List BleEvent → Bool
opens_all was_open [] = was_open
opens_all was_open (evt ∷ later) = opens_all (opens was_open evt) later

abbrev pub IsFitting : BleEvent → Type 0
IsFitting (scan_report r) = IsReport r
IsFitting _ = Unit {0}

pub data AllFitting : List BleEvent → Type 0 where
  none_left : AllFitting []
  and_then :
      {evt : BleEvent} {later : List BleEvent}
      → IsFitting evt
      → AllFitting later
      → AllFitting (evt ∷ later)

-- The host's queue grows by these packets, and the flag is this one.
Told : List HciPacket → Bool → Result ⊥ Hci → Type 0
Told ys is_open r = (h : Hci) × (r ≡ ok h) × Holds 16 h.events ys × (h.connection_open ≡ is_open)

pushed_lem :
    (evt : HciPacket) (h : Hci) (ys : List HciPacket)
    → Holds 16 h.events ys
    → length ys + 1 < 16
    → (q : Queue HciPacket) × (push_event evt h ≡ ok (record h { events = q }))
      × Holds 16 q (ys ++ evt ∷ [])
unfolding push_event
pushed_lem evt h ys held room =
    let (q, e, held') = push_event-ok 16 h.events ys evt held room in (q, rw e refl, held')

unchanged :
    (h : Hci) (ys : List HciPacket)
    → Holds 16 h.events ys
    → Told (ys ++ []) h.connection_open (ok h)
unfolding Told
unchanged h ys held = (h, refl, rw (append-nil ys) held, refl)

forward_lem :
    (evt : BleEvent) (b : Ble) (h : Hci) (ys : List HciPacket)
    → IsFitting evt
    → Holds 16 h.events ys
    → length ys + 1 < 16
    → Told (ys ++ wire (conn_is_master b) evt) (opens h.connection_open evt) (forward evt b h)
unfolding forward Told
forward_lem (scan_report r) b h ys fits held room =
    let payload = report_bytes r (take (min r.report_len 27) r.report) in
    let np = length-take (min r.report_len 27) r.report in
    let size = fits.report in
    let short =
      report_bytes-short r (take (min r.report_len 27) r.report) fits.addr (omega arith) in
    let (q, pushed, held') = pushed_lem (event_packet hci_evt_le_meta payload) h ys held room in
    (
      record h { events = q },
      simp (report_payload-ok r fits, event-ok hci_evt_le_meta payload short, pushed) refl,
      held',
      refl,
    )
forward_lem (connected conn) b h ys fits held room =
    let payload = connection_payload (conn_is_master b) conn in
    let h1 : Hci = record h { connection_open = true; conn_handle = 0 } in
    let (q, pushed, held') = pushed_lem (event_packet hci_evt_le_meta payload) h1 ys held room in
    (
      record h1 { events = q },
      simp (event-ok hci_evt_le_meta payload (omega arith), pushed) refl,
      held',
      refl,
    )
forward_lem (disconnected reason) b h ys fits held room =
    let payload = 0 ∷ 0 ∷ 0 ∷ reason_code reason ∷ [] in
    let (q, pushed, held') =
      pushed_lem (event_packet hci_evt_disconnection_complete payload) h ys held room in
    (
      record h { events = q; connection_open = false },
      simp (event-ok hci_evt_disconnection_complete payload (omega arith), pushed) refl,
      held',
      refl,
    )
forward_lem adv_started b h ys fits held room = unchanged h ys held
forward_lem adv_stopped b h ys fits held room = unchanged h ys held
forward_lem scan_started b h ys fits held room = unchanged h ys held
forward_lem scan_stopped b h ys fits held room = unchanged h ys held
forward_lem conn_data b h ys fits held room = unchanged h ys held
forward_lem (scan_req_received addr) b h ys fits held room = unchanged h ys held
forward_lem (connect_req_received addr conn) b h ys fits held room = unchanged h ys held
forward_lem (ll_control op) b h ys fits held room = unchanged h ys held
forward_lem (l2cap cid) b h ys fits held room = unchanged h ys held
forward_lem (periodic_adv adi rssi) b h ys fits held room = unchanged h ys held
forward_lem (periodic_synced channel interval) b h ys fits held room = unchanged h ys held

wire-short : (master : Bool) (evt : BleEvent) → length (wire master evt) ≤ 1
wire-short master (scan_report r) = omega arith
wire-short master (connected conn) = omega arith
wire-short master (disconnected reason) = omega arith
wire-short master adv_started = omega arith
wire-short master adv_stopped = omega arith
wire-short master scan_started = omega arith
wire-short master scan_stopped = omega arith
wire-short master conn_data = omega arith
wire-short master (scan_req_received addr) = omega arith
wire-short master (connect_req_received addr conn) = omega arith
wire-short master (ll_control op) = omega arith
wire-short master (l2cap cid) = omega arith
wire-short master (periodic_adv adi rssi) = omega arith
wire-short master (periodic_synced channel interval) = omega arith

-- The loop, with more turns than events.
tick_loop_lem :
    (xs : List BleEvent) (turns : ℕ) (b : Ble) (h : Hci) (ys : List HciPacket)
    → length xs < turns
    → Pending b xs
    → AllFitting xs
    → Holds 16 h.events ys
    → length ys + length xs < 16
    → (h' : Hci) × (b' : Ble) × (tick_loop turns b h ≡ ok (h', b'))
      × Pending b' []
      × Holds 16 h'.events (ys ++ wires (conn_is_master b) xs)
      × (h'.connection_open ≡ opens_all h.connection_open xs)
unfolding tick_loop Ble.next_event Told conn_is_master
tick_loop_lem xs zero b h ys more held all told room = absurd (omega arith)
tick_loop_lem [] (suc turns) b h ys more held all told room =
    let (q, takes, held') = next_event-none 8 b.events held in
    (h, record b { events = q }, rw takes refl, held', rw (append-nil ys) told, refl)
tick_loop_lem (evt ∷ xs) (suc turns) b h ys more held (and_then fits all) told room =
    let (q, takes, held') = next_event-ok 8 b.events xs evt held in
    let b1 : Ble = record b { events = q } in
    let (h1, tells, told', is_open) = forward_lem evt b1 h ys fits told (omega arith) in
    let few = wire-short (conn_is_master b) evt in
    let size = length-append ys (wire (conn_is_master b) evt) in
    let (h', b', rest, empty, all_told, flag) =
      tick_loop_lem xs turns b1 h1 (ys ++ wire (conn_is_master b) evt) (omega arith) held' all told'
        (omega arith) in
    (
      h',
      b',
      simp (takes, tells) rest,
      empty,
      rw (← append_assoc ys (wire (conn_is_master b) evt) (wires (conn_is_master b) xs)) all_told,
      flag ∙ ap (λ t. opens_all t xs) is_open,
    )

-- A stack whose events fit their arrays, and a host's queue with room for as many packets as there are
-- events, besides the free slot. `tick` takes all events, in their order, and queues a packet for each
-- advertising report, connection and disconnection, behind what the host has not read yet; the flag for
-- an open connection is what the last of the connections and disconnections says.
pub tick-forwards :
    (b : Ble) (h : Hci) (xs : List BleEvent) (ys : List HciPacket)
    → Pending b xs
    → AllFitting xs
    → Holds 16 h.events ys
    → length ys + length xs < 16
    → (h' : Hci) × (b' : Ble) × (tick b h ≡ ok (h', b'))
      × Pending b' []
      × Holds 16 h'.events (ys ++ wires (conn_is_master b) xs)
      × (h'.connection_open ≡ opens_all h.connection_open xs)
unfolding tick
tick-forwards b h xs ys held all told room =
    let few = held.fewer in tick_loop_lem xs 9 b h ys (omega arith) held all told room
