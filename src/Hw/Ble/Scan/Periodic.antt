-- ===== src/Hw/Ble/Scan/Periodic.antt =====
-- The periodic information on its way from an advertiser to a scanner.
use nrf_ble.Base.{
  ℕ, suc, ◌+◌, ◌/◌, ◌%◌, ◌^◌, ◌≤◌, ◌<◌, ◌≡◌, refl, ap, ◌∙◌, arith, bit_and, lt_false, List, [], ◌∷◌,
  ◌++◌, length, drop, append_assoc, length-append, true, false, some, if◌then◌else◌,
}
use nrf_ble.Base.Results.{ok}
use nrf_ble.Base.Slices.{slice-append}
use nrf_ble.Ll.Addr.{is_random}
use nrf_ble.Ll.Pdu.Header
use nrf_ble.Ll.Pdu.Adv.{AdvPdu, aux_adv_ext_ind_with_eh}
use nrf_ble.Ll.Pdu.Adv.Encode.{encode_typed}
use nrf_ble.Ll.Pdu.Adv.Layout.{layout, with_header}
use nrf_ble.Ll.Pdu.Adv.Laws.{encode_typed_lem, header}
use nrf_ble.Ll.Pdu.Fields.{encode_periodic, decode_periodic}
use nrf_ble.Hw.Ble
use nrf_ble.Hw.Ble.{Ble, BleEvent}
use nrf_ble.Hw.Ble.Advertise.{aux_pdu, ext_ad_periodic}
use nrf_ble.Hw.Ble.Events.{Pending, push-ok}
use nrf_ble.Hw.Ble.Scan.{handle_periodic_aux}
use nrf_ble.Hw.Io.{Io, Blocked, now}
use nrf_ble.Hw.Timers.{PeriodicSync, next_interval}

-- The extended header that an advertiser sends.
abbrev pub periodic_header : Ble → List ℕ
periodic_header b =
    0
    ∷ ext_ad_periodic
    ∷ 0
    ∷ 0
    ∷ bit_and b.adv_params.periodic_interval 0xFF % 256
    ∷ b.adv_params.periodic_interval / 2 ^ 8 % 256
    ∷ (if is_random b.own_addr_type then 1 else 0)
    ∷ []

aux_pdu-periodic :
    (payload : List ℕ) (b : Ble)
    → b.adv_params.periodic ≡ true
    → aux_pdu payload b ≡ ok (aux_adv_ext_ind_with_eh b.own_addr (0, 0) (periodic_header b) payload)
unfolding encode_periodic
aux_pdu-periodic payload b e = simp e refl

-- A scanner takes the interval from the wrong bytes of the packet.
handle_periodic_aux-zero :
    (h0 h1 : ℕ) (addr rest : List ℕ) (low : ℕ) (channel t : ℕ) (io : Io) (s : Ble)
    (xs : List BleEvent)
    → length addr ≡ 6
    → now s.io ≡ ok (t, io)
    → Pending s xs
    → length xs + 1 < 8
    → (s' : Ble) × (sync : PeriodicSync) × (handle_periodic_aux channel
          ((h0 ∷ h1 ∷ addr ++ 0 ∷ 0 ∷ []) ++ ((0 ∷ ext_ad_periodic ∷ 0 ∷ 0 ∷ low ∷ []) ++ rest))
          s
        ≡ ok s')
      × Pending s' (xs ++ Ble.periodic_synced channel 0 ∷ [])
      × (s'.periodic_sync ≡ some sync)
      × (sync.units ≡ 0)
unfolding handle_periodic_aux decode_periodic next_interval
handle_periodic_aux-zero h0 h1 addr rest low channel t io s xs size reading h room =
    let front = h0 ∷ h1 ∷ addr ++ 0 ∷ 0 ∷ [] in
    let five = 0 ∷ ext_ad_periodic ∷ 0 ∷ 0 ∷ low ∷ [] in
    let n = length-append (h0 ∷ h1 ∷ addr) (0 ∷ 0 ∷ []) in
    let m = length-append front (five ++ rest) in
    let k = length-append five rest in
    let cut = slice-append {E = Blocked} front five rest 10 15 (omega arith) refl in
    let sync : PeriodicSync = record {
      channel = channel;
      units = 0;
      frac = 0;
      next_event = (t + 0) % 2 ^ 32;
    } in
    let s1 : Ble = record s { io = io; periodic_sync = some sync } in
    let (q, pushed, held) = push-ok {E = Blocked} s1 xs (Ble.periodic_synced channel 0) h room in
    (
      record s1 { events = q },
      sync,
      simp (lt_false (length (front ++ (five ++ rest))) 15 (omega arith), cut, reading) pushed,
      held,
      refl,
      refl,
    )

-- An advertiser with periodic advertising and at most 31 bytes of data, whose address and transmit
-- buffer have their sizes, and a scanner on a queue with room for an event besides the free slot. The
-- auxiliary packet is encoded; when the scanner takes the periodic information from the packet's
-- bytes, it reports the synchronisation with the interval 0, whatever interval the advertiser has.
pub handle_periodic_aux-own :
    (b : Ble) (payload : List ℕ) (s : Ble) (channel t : ℕ) (io : Io) (xs : List BleEvent)
    → b.adv_params.periodic ≡ true
    → length b.own_addr ≡ 6
    → length payload ≤ 31
    → length b.tx_buf ≡ 257
    → now s.io ≡ ok (t, io)
    → Pending s xs
    → length xs + 1 < 8
    → (pdu : AdvPdu) × (sent : List ℕ) × (aux_pdu payload b ≡ ok pdu)
      × (encode_typed pdu b.tx_buf (is_random b.own_addr_type) false
          ≡ ok (length sent, sent ++ drop (length sent) b.tx_buf))
      × (s' : Ble) × (sync : PeriodicSync) × (handle_periodic_aux channel sent s ≡ ok s')
      × Pending s' (xs ++ Ble.periodic_synced channel 0 ∷ [])
      × (s'.periodic_sync ≡ some sync)
      × (sync.units ≡ 0)
handle_periodic_aux-own b payload s channel t io xs periodic addr few size reading h room =
    let ehs = periodic_header b in
    let pdu = aux_adv_ext_ind_with_eh b.own_addr (0, 0) ehs payload in
    let front = b.own_addr ++ 0 ∷ 0 ∷ [] in
    let head = header pdu (is_random b.own_addr_type) false in
    let sent = with_header head (layout pdu) in
    let n = length-append b.own_addr (0 ∷ 0 ∷ []) in
    let m = length-append front ehs in
    let k = length-append (front ++ ehs) payload in
    let total : length (layout pdu) ≡ 15 + length payload = omega arith in
    let two : 2 + length (layout pdu) ≡ suc (suc (length (layout pdu))) = omega arith in
    let bytes =
      ap (λ t. (Header.encode head).0 ∷ (Header.encode head).1 ∷ t)
        (append_assoc front ehs payload) in
    let (s', sync, takes, held, is_sync, zero) =
      handle_periodic_aux-zero (Header.encode head).0 (Header.encode head).1 b.own_addr
        (drop 5 ehs ++ payload) _ channel t io s xs addr reading h room in
    (
      pdu,
      sent,
      aux_pdu-periodic payload b periodic,
      encode_typed_lem pdu b.tx_buf (is_random b.own_addr_type) false (addr, omega arith)
          ∙ rw
              (
                lt_false (length b.tx_buf) 2 (omega arith),
                lt_false 63 (length (layout pdu)) (omega arith),
                lt_false (length b.tx_buf) (2 + length (layout pdu)) (omega arith),
              )
              (ap (λ (k : ℕ). ok (k, sent ++ drop k b.tx_buf)) two),
      s',
      sync,
      ap (λ t. handle_periodic_aux channel t s) bytes ∙ takes,
      held,
      is_sync,
      zero,
    )
