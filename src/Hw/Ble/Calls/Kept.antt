-- ===== src/Hw/Ble/Calls/Kept.antt =====
-- No sequence of calls breaks the state.
use nrf_ble.Base.{
  ℕ, ◌+◌, ◌%◌, ◌^◌, ◌≤◌, ◌≡◌, refl, arith, bit_and, ltb, ◌||◌, List, [], ◌∷◌, length, Bool, true,
  false, Option, none, some, inl, inr, ◌⊎◌, if◌then◌else◌,
}
use nrf_ble.Base.Results.{
  Result, Error, invalid_length, invalid_param, already_running, ok, err, lift,
}
use nrf_ble.Base.Sizes.{if_cases, copy_to_kept}
use nrf_ble.Ll.AcceptList.Laws.{IsAcceptList, add_lem}
use nrf_ble.Ll.AcceptList
use nrf_ble.Ll.AcceptList.{AcceptList}
use nrf_ble.Ll.Addr.{AddrType, random_private_resolvable}
use nrf_ble.Ll.Privacy.Laws.{resolve_rpa-generate_rpa}
use nrf_ble.Hw.Ble
use nrf_ble.Hw.Ble.{
  Ble, BleEvent, AdvParams, ScanParams, RunState, idle, running, stop_pending, push, adv_started,
  scan_started,
}
use nrf_ble.Hw.Ble.Calls.{
  Call, gap_address_set, gap_accept_list_add, gap_connect, gap_adv_set_configure, gap_adv_start,
  gap_scan_start, gap_adv_stop, gap_scan_stop, gap_accept_list_clear, gap_rotate_rpa, next_event,
  gap_privacy_set, gap_tx_power_set, none_left, and_then, IsTyped, AllTyped, perform, perform_all,
  after, CanScan, IsSound,
}
use nrf_ble.Hw.Ble.Calls.Parts.{
  push-kept, next_event-kept, now_cases, with_data, with_queue, with_address, with_devices,
  with_free, with_adv, with_scan,
}
use nrf_ble.Hw.Ble.Gap
use nrf_ble.Hw.Ble.Gap.{
  Fallible, start_adv, start_scan, valid_adv, valid_scan, is_idle, stop_from, stop_scan_from,
}
use nrf_ble.Hw.Ble.Gap.Lifecycle.{IsValid, IsValid-valid_adv}
use nrf_ble.Hw.Io.{Io, Blocked, blocked, set_compare}
use nrf_ble.Hw.Queue
use nrf_ble.Hw.Queue.{Queue}
use nrf_ble.Hw.Timers
use nrf_ble.Hw.Timers.{IntervalAccum, next}

-- A call leaves a sound state, or waits for the timer.
abbrev pub Kept : Result Blocked Ble → Type 0
Kept r = ((b : Ble) × (r ≡ ok b) × IsSound b) ⊎ (r ≡ err blocked)

-- A call that returns with a sound state, whatever its result, or waits.
KeptCall : {A : Type 0} → Result Blocked (A × Ble) → Type 0
KeptCall {A} r = ((a : A) × (b : Ble) × (r ≡ ok (a, b)) × IsSound b) ⊎ (r ≡ err blocked)

called : {A : Type 0} (r : Result Blocked (A × Ble)) → KeptCall r → Kept (after r)
unfolding KeptCall
called r (inl (a, b, e, s)) = inl (b, rw e refl, s)
called r (inr e) = inr (rw e refl)

either :
    {A : Type 0} (t : Bool) (x y : Result Blocked (A × Ble))
    → (t ≡ true → KeptCall x)
    → (t ≡ false → KeptCall y)
    → KeptCall (if t then x else y)
either t x y hx hy = if_cases KeptCall t x y hx hy

start_adv-kept :
    (params : AdvParams) (b : Ble) → IsSound b → IsValid params → KeptCall (start_adv params b)
unfolding start_adv KeptCall
start_adv-kept params b s v = elim (now_cases b.io) [
  | inr e ↦ inr (rw e refl)
  | inl (t, io, e) ↦
      let (ticks, accum) = next Timers.new params.interval_min in
      let io' = set_compare ((t + ticks) % 2 ^ 32) io in
      let s1 =
        with_adv b running params params.own_addr_type 0 accum io' s (omega arith) (λ _. v) in
      let b1 : Ble = record b {
        adv_state = running;
        adv_params = params;
        own_addr_type = params.own_addr_type;
        adv_channel_idx = 0;
        adv_accum = accum;
        io = io';
      } in
      let (q, pushed, h) = push-kept b1 adv_started s1.queue in
      inl (ok tt, record b1 { events = q }, simp (e, pushed) refl, with_queue b1 q s1 h)
]

start_scan-kept :
    (params : ScanParams) (b : Ble) → IsSound b → CanScan params → KeptCall (start_scan params b)
unfolding start_scan KeptCall
start_scan-kept params b s v = elim (now_cases b.io) [
  | inr e ↦ inr (rw e refl)
  | inl (t, io, e) ↦
      let (ticks, accum) = next Timers.new params.interval in
      let io' = set_compare ((t + ticks) % 2 ^ 32) io in
      let s1 = with_scan b running params params.own_addr_type 0 accum io' s (λ _. v) in
      let b1 : Ble = record b {
        scan_state = running;
        scan_params = params;
        own_addr_type = params.own_addr_type;
        scan_channel_idx = 0;
        scan_accum = accum;
        io = io';
      } in
      let (q, pushed, h) = push-kept b1 scan_started s1.queue in
      inl (ok tt, record b1 { events = q }, simp (e, pushed) refl, with_queue b1 q s1 h)
]

failed : (e : Error) (b : Ble) → IsSound b → KeptCall (Gap.fails e b)
unfolding KeptCall
failed e b s = inl (err e, b, refl, s)

gap_adv_start-kept :
    (params : AdvParams) (b : Ble) → IsSound b → KeptCall (Gap.gap_adv_start params b)
unfolding Gap.gap_adv_start
gap_adv_start-kept params b s =
    either (is_idle b.adv_state) _ _
      (λ _.
        either (valid_adv params) _ _
          (λ right. start_adv-kept params b s (IsValid-valid_adv params right))
          (λ _. failed invalid_param b s))
      (λ _. failed already_running b s)

CanScan-valid_scan : (params : ScanParams) → valid_scan params ≡ true → CanScan params
CanScan-valid_scan params h = record {
  least = ground arith;
  ordered = ground arith;
  most = ground arith;
}

gap_scan_start-kept :
    (params : ScanParams) (b : Ble) → IsSound b → KeptCall (Gap.gap_scan_start params b)
unfolding Gap.gap_scan_start
gap_scan_start-kept params b s =
    either (is_idle b.scan_state) _ _
      (λ _.
        either (valid_scan params) _ _
          (λ right. start_scan-kept params b s (CanScan-valid_scan params right))
          (λ _. failed invalid_param b s))
      (λ _. failed already_running b s)

gap_connect-kept :
    (target : List ℕ) (kind : AddrType) (b : Ble)
    → IsSound b
    → KeptCall (Gap.gap_connect target kind b)
unfolding Gap.gap_connect
gap_connect-kept target kind b s =
    either (is_idle b.scan_state) _ _
      (λ _. gap_scan_start-kept _ _ (with_free b b.irk (some target) kind b.io s))
      (λ _. failed already_running b s)

gap_adv_set_configure-kept :
    (payload scan_rsp_data : List ℕ) (b : Ble)
    → IsSound b
    → KeptCall (Gap.gap_adv_set_configure payload scan_rsp_data b)
unfolding Gap.gap_adv_set_configure KeptCall
gap_adv_set_configure-kept payload scan_rsp_data b s =
    either (ltb 31 (length payload) || ltb 31 (length scan_rsp_data)) _ _
      (λ _. failed invalid_length b s)
      (λ e.
        let few : (length payload ≤ 31) × (length scan_rsp_data ≤ 31) = ground arith in
        let few0 = few.0 in
        let few1 = few.1 in
        let size0 = s.payloads.adv_size in
        let size1 = s.payloads.rsp_size in
        let (xs, written, k) =
          copy_to_kept {E = Blocked} b.adv_data 0 (length payload) payload (omega arith)
            (omega arith) in
        let (zs, written', k') =
          copy_to_kept {E = Blocked} b.scan_rsp 0 (length scan_rsp_data) scan_rsp_data (omega arith)
            (omega arith) in
        inl (
          ok tt,
          record b {
            adv_data = xs;
            adv_data_len = length payload;
            scan_rsp = zs;
            scan_rsp_len = length scan_rsp_data;
          },
          simp (written, written') refl,
          with_data b xs (length payload) zs (length scan_rsp_data) s (record {
            adv_size = omega arith;
            adv_bound = few0;
            rsp_size = omega arith;
            rsp_bound = few1;
          }),
        ))

stop_from-kept :
    (b : Ble) (state : RunState) → b.adv_state ≡ state → IsSound b → IsSound (stop_from b state).1
stop_from-kept b idle e s = s
stop_from-kept b stop_pending e s = s
stop_from-kept b running e s =
    with_adv b stop_pending b.adv_params b.own_addr_type b.adv_channel_idx b.adv_accum b.io s
      s.channel (λ _. s.advertises (λ z. cc))

stop_scan_from-kept :
    (b : Ble) (state : RunState)
    → b.scan_state ≡ state
    → IsSound b
    → IsSound (stop_scan_from b state).1
stop_scan_from-kept b idle e s = s
stop_scan_from-kept b stop_pending e s = s
stop_scan_from-kept b running e s =
    with_scan b stop_pending b.scan_params b.own_addr_type b.scan_channel_idx b.scan_accum b.io s
      (λ _. s.scans (λ z. cc))

clear-IsAcceptList :
    (devices : AcceptList) → IsAcceptList devices → IsAcceptList (AcceptList.clear devices)
unfolding AcceptList.clear
clear-IsAcceptList devices h = record {
  capacity = h.capacity;
  bounded = omega arith;
  no_duplicates = tt;
}

gap_accept_list_add-kept :
    (addr : List ℕ) (kind : AddrType) (b : Ble)
    → IsSound b
    → KeptCall (lift (Gap.gap_accept_list_add addr kind b))
unfolding Gap.gap_accept_list_add KeptCall
gap_accept_list_add-kept addr kind b s =
    let (devices, added, adds, whole, _) = add_lem b.devices addr kind s.devices in
    inl (added, record b { devices = devices }, rw adds refl, with_devices b devices s whole)

taken-kept : (b : Ble) → IsSound b → KeptCall (lift {E = Blocked} (Ble.next_event b))
unfolding Ble.next_event KeptCall
taken-kept b s =
    let (evt, q, takes, h) = next_event-kept b.events s.queue in
    inl (evt, record b { events = q }, rw takes refl, with_queue b q s h)

-- What `Ble::new` makes is sound.
pub new-IsSound : (io : Io) → IsSound (Ble.new io)
unfolding Ble.new AcceptList.empty Queue.empty
new-IsSound io = record {
  payloads = record {
    adv_size = refl;
    adv_bound = omega arith;
    rsp_size = refl;
    rsp_bound = omega arith;
  };
  tx_size = refl;
  rx_size = refl;
  address = refl;
  queue = record { slots = refl; head = omega arith; tail = omega arith };
  devices = record { capacity = refl; bounded = omega arith; no_duplicates = tt };
  channel = omega arith;
  advertises = λ busy. absurd (busy refl);
  scans = λ busy. absurd (busy refl);
}

module _ (encrypt : List ℕ → List ℕ → List ℕ)
    (block_size : (key block : List ℕ) → length block ≡ 16 → length (encrypt key block) ≡ 16) where
  gap_rotate_rpa-kept :
      (b : Ble) (irk : Option (List ℕ))
      → b.irk ≡ irk
      → IsSound b
      → KeptCall (Gap.gap_rotate_rpa encrypt b)
  unfolding Gap.gap_rotate_rpa KeptCall
  gap_rotate_rpa-kept b none e s = inl (false, b, rw e refl, s)
  gap_rotate_rpa-kept b (some irk) e s = elim (now_cases b.io) [
    | inr waits ↦ inr (rw (e, waits) refl)
    | inl (t, io, reads) ↦
        let (addr, makes, size, parses, resolves) =
          resolve_rpa-generate_rpa encrypt block_size irk (bit_and t 0x00FFFFFF) in
        inl (
          true,
          record b { io = io; own_addr = addr; own_addr_type = random_private_resolvable },
          simp (e, reads, makes) refl,
          with_address b addr random_private_resolvable io s size,
        )
  ]

  perform-kept : (call : Call) (b : Ble) → IsTyped call → IsSound b → Kept (perform encrypt call b)
  unfolding Gap.gap_address_set Gap.gap_accept_list_clear Gap.gap_privacy_set Gap.gap_tx_power_set
      Gap.gap_adv_stop Gap.gap_scan_stop AcceptList.clear
  perform-kept (gap_address_set addr kind) b h s = inl (_, refl, with_address b addr kind b.io s h)
  perform-kept (gap_accept_list_add addr kind) b h s =
      called _ (gap_accept_list_add-kept addr kind b s)
  perform-kept (gap_connect target kind) b h s = called _ (gap_connect-kept target kind b s)
  perform-kept (gap_adv_set_configure xs zs) b h s = called _ (gap_adv_set_configure-kept xs zs b s)
  perform-kept (gap_adv_start params) b h s = called _ (gap_adv_start-kept params b s)
  perform-kept (gap_scan_start params) b h s = called _ (gap_scan_start-kept params b s)
  perform-kept gap_adv_stop b h s = inl (_, refl, stop_from-kept b b.adv_state refl s)
  perform-kept gap_scan_stop b h s = inl (_, refl, stop_scan_from-kept b b.scan_state refl s)
  perform-kept gap_accept_list_clear b h s =
      inl (_, refl, with_devices b _ s (clear-IsAcceptList b.devices s.devices))
  perform-kept gap_rotate_rpa b h s = called _ (gap_rotate_rpa-kept b b.irk refl s)
  perform-kept next_event b h s = called _ (taken-kept b s)
  perform-kept (gap_privacy_set irk) b h s =
      inl (_, refl, with_free b (some irk) b.connect_target b.connect_target_type b.io s)
  perform-kept (gap_tx_power_set power) b h s =
      inl (_, refl, with_free b b.irk b.connect_target b.connect_target_type _ s)

  -- From a sound state, any sequence of calls that configure, start and stop advertising, scanning and
  -- connecting, or take an event, also on a full queue: it never panics. It leaves a sound state, where
  -- whatever advertises or scans does so with valid parameters, or it waits for the timer. The block
  -- cipher keeps the size of a block.
  pub perform_all-IsSound :
      (calls : List Call) (b : Ble)
      → AllTyped calls
      → IsSound b
      → ((b' : Ble) × (perform_all encrypt calls b ≡ ok b') × IsSound b')
        ⊎ (perform_all encrypt calls b ≡ err blocked)
  unfolding perform_all
  perform_all-IsSound [] b none_left s = inl (b, refl, s)
  perform_all-IsSound (call ∷ calls) b (and_then typed all) s = elim (perform-kept call b typed s) [
    | inr waits ↦ inr (rw waits refl)
    | inl (b1, e, s1) ↦ elim (perform_all-IsSound calls b1 all s1) [
      | inr waits ↦ inr (rw e waits)
      | inl (b2, rest, s2) ↦ inl (b2, rw e rest, s2)
    ]
  ]
