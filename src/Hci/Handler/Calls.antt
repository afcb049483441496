-- ===== src/Hci/Handler/Calls.antt =====
-- The calls of the stack that a command makes never fail to return.
use nrf_ble.Base.{
  ℕ, zero, ◌+◌, ◌%◌, ◌^◌, min, ◌≤◌, ◌<◌, ◌≡◌, refl, arith, leb, ltb, ◌||◌, leb→le, List, [], ◌∷◌,
  length, length-replicate, replicate, Bool, some, if◌then◌else◌,
}
use nrf_ble.Base.Results.{Result, ok, ◌>>=◌}
use nrf_ble.Base.Sizes.{if_cases, copy_to_kept}
use nrf_ble.Base.Slices.{slice_part, index-ok}
use nrf_ble.Ll.Addr.{AddrType, public}
use nrf_ble.Hci.Handler.{
  Hci, set_adv_data, set_adv_enable, set_scan_enable, create_connection, set_random_address,
  state_of, enables,
}
use nrf_ble.Hw.Ble.{Ble, BleEvent, AdvParams, ScanParams, adv_started, scan_started, running}
use nrf_ble.Hw.Ble.Events.{Pending, push-ok}
use nrf_ble.Hw.Ble.Gap.{
  Fallible, gap_adv_start, start_adv, gap_scan_start, start_scan, gap_connect,
  gap_adv_set_configure,
}
use nrf_ble.Hw.Io.{Io, Blocked, now, set_compare}
use nrf_ble.Hw.Timers
use nrf_ble.Hw.Timers.{next}

-- A computation yields a result.
abbrev pub Yields : {A : Type 0} → Result Blocked A → Type 0
Yields {A} r = (a : A) × (r ≡ ok a)

-- The stack can take a call: its arrays have their sizes, its queue has room, the timer can be read.
pub record IsReady (b : Ble) : Type 0 where
  pub adv_data : length b.adv_data ≡ 31
  pub scan_rsp : length b.scan_rsp ≡ 31
  pub pending : List BleEvent
  pub held : Pending b pending
  pub room : length pending + 1 < 8
  pub t : ℕ
  pub later : List ℕ
  pub readings : b.io.timer.readings ≡ t ∷ later

pub start_adv-Yields : (params : AdvParams) (b : Ble) → IsReady b → Yields (start_adv params b)
unfolding start_adv now
start_adv-Yields params b r =
    let (ticks, accum) = next Timers.new params.interval_min in
    let io : Io = record (b.io) { timer = record (b.io.timer) { readings = r.later } } in
    let b1 : Ble = record b {
      adv_params = params;
      own_addr_type = params.own_addr_type;
      adv_channel_idx = 0;
      adv_accum = accum;
      io = set_compare ((r.t + ticks) % 2 ^ 32) io;
      adv_state = running;
    } in
    let (q, pushed, held) = push-ok {E = Blocked} b1 r.pending adv_started r.held r.room in
    ((ok tt, record b1 { events = q }), simp (r.readings, pushed) refl)

pub start_scan-Yields : (params : ScanParams) (b : Ble) → IsReady b → Yields (start_scan params b)
unfolding start_scan now
start_scan-Yields params b r =
    let (ticks, accum) = next Timers.new params.interval in
    let io : Io = record (b.io) { timer = record (b.io.timer) { readings = r.later } } in
    let b1 : Ble = record b {
      scan_params = params;
      own_addr_type = params.own_addr_type;
      scan_channel_idx = 0;
      scan_accum = accum;
      io = set_compare ((r.t + ticks) % 2 ^ 32) io;
      scan_state = running;
    } in
    let (q, pushed, held) = push-ok {E = Blocked} b1 r.pending scan_started r.held r.room in
    ((ok tt, record b1 { events = q }), simp (r.readings, pushed) refl)

-- Either branch of a test.
either :
    {A : Type 0} (t : Bool) (x y : Result Blocked A)
    → Yields x
    → Yields y
    → Yields (if t then x else y)
either t x y hx hy = if_cases Yields t x y (λ e. hx) (λ e. hy)

pub gap_adv_start-Yields :
    (params : AdvParams) (b : Ble) → IsReady b → Yields (gap_adv_start params b)
unfolding gap_adv_start
gap_adv_start-Yields params b r =
    either _ _ _ (either _ _ _ (start_adv-Yields params b r) (_, refl)) (_, refl)

pub gap_scan_start-Yields :
    (params : ScanParams) (b : Ble) → IsReady b → Yields (gap_scan_start params b)
unfolding gap_scan_start
gap_scan_start-Yields params b r =
    either _ _ _ (either _ _ _ (start_scan-Yields params b r) (_, refl)) (_, refl)

pub gap_connect-Yields :
    (target : List ℕ) (kind : AddrType) (b : Ble) → IsReady b → Yields (gap_connect target kind b)
unfolding gap_connect
gap_connect-Yields target kind b r =
    let b1 : Ble = record b { connect_target = some target; connect_target_type = kind } in
    let r1 : IsReady b1 = record {
      adv_data = r.adv_data;
      scan_rsp = r.scan_rsp;
      pending = r.pending;
      held = r.held;
      room = r.room;
      t = r.t;
      later = r.later;
      readings = r.readings;
    } in
    either _ _ _ (gap_scan_start-Yields _ b1 r1) (_, refl)

-- The result of a call that is dropped.
dropped : {m : Result Blocked Fallible} → Yields m → Yields (do r ← m; ok (state_of r))
dropped (r, e) = (state_of r, rw e refl)

pub gap_adv_set_configure-Yields :
    (payload scan_rsp_data : List ℕ) (b : Ble)
    → IsReady b
    → Yields (gap_adv_set_configure payload scan_rsp_data b)
unfolding gap_adv_set_configure
gap_adv_set_configure-Yields payload scan_rsp_data b r =
    if_cases Yields (ltb 31 (length payload) || ltb 31 (length scan_rsp_data)) _ _ (λ e. (_, refl))
      λ e.
        let few : (length payload ≤ 31) × (length scan_rsp_data ≤ 31) = ground arith in
        let few0 = few.0 in
        let few1 = few.1 in
        let size0 = r.adv_data in
        let size1 = r.scan_rsp in
        let (xs, written, k) =
          copy_to_kept {E = Blocked} b.adv_data 0 (length payload) payload (omega arith)
            (omega arith) in
        let (zs, written', k') =
          copy_to_kept {E = Blocked} b.scan_rsp 0 (length scan_rsp_data) scan_rsp_data (omega arith)
            (omega arith) in
        (
          (
            ok tt,
            record b {
              adv_data = xs;
              adv_data_len = length payload;
              scan_rsp = zs;
              scan_rsp_len = length scan_rsp_data;
            },
          ),
          simp (written, written') refl,
        )

pub set_adv_data-Yields : (params : List ℕ) (b : Ble) → IsReady b → Yields (set_adv_data params b)
set_adv_data-Yields params b r =
    if_cases Yields (leb 32 (length params)) _ _
      (λ e.
        let long = leb→le 32 (length params) e in
        let (first, reads) = index-ok {E = Blocked} params 0 (omega arith) in
        let n = min first 31 in
        let z = length-replicate 31 zero in
        let (part, cut, size) =
          slice_part {E = Blocked} params 1 (1 + n) (omega arith) (omega arith) in
        let (buf, written, k) =
          copy_to_kept {E = Blocked} (replicate 31 0) 0 n part (omega arith) (omega arith) in
        let (part', cut', size') = slice_part {E = Blocked} buf 0 n (omega arith) (omega arith) in
        let (done, all) =
          dropped {m = gap_adv_set_configure part' [] b}
            (gap_adv_set_configure-Yields part' [] b r) in
        (done, simp (reads, cut, written, cut') all))
      (λ e. (b, refl))

pub set_adv_enable-Yields :
    (params : List ℕ) (b : Ble) → IsReady b → Yields (set_adv_enable params b)
set_adv_enable-Yields params b r =
    either (enables params) _ _ (dropped (gap_adv_start-Yields _ b r)) (_, refl)

pub set_scan_enable-Yields :
    (params : List ℕ) (b : Ble) → IsReady b → Yields (set_scan_enable params b)
set_scan_enable-Yields params b r =
    either (enables params) _ _ (dropped (gap_scan_start-Yields _ b r)) (_, refl)

pub create_connection-Yields :
    (params : List ℕ) (b : Ble) → IsReady b → Yields (create_connection params b)
create_connection-Yields params b r =
    if_cases Yields (leb 25 (length params)) _ _
      (λ e.
        let long = leb→le 25 (length params) e in
        let z = length-replicate 6 zero in
        let (part, cut, size) = slice_part {E = Blocked} params 14 20 (omega arith) (omega arith) in
        let (target, written, k) =
          copy_to_kept {E = Blocked} (replicate 6 0) 0 6 part (omega arith) (omega arith) in
        let (done, all) = dropped (gap_connect-Yields target public b r) in
        (done, simp (cut, written) all))
      (λ e. (b, refl))

-- The address is taken or not; the queue is as it was.
pub set_random_address-Yields :
    (params : List ℕ) (h : Hci)
    → (h' : Hci) × (set_random_address params h ≡ ok h') × (h'.events ≡ h.events)
set_random_address-Yields params h =
    if_cases (λ t. (h' : Hci) × (t ≡ ok h') × (h'.events ≡ h.events)) (leb 6 (length params)) _ _
      (λ e.
        let long = leb→le 6 (length params) e in
        let z = length-replicate 6 zero in
        let (part, cut, size) = slice_part {E = Blocked} params 0 6 (omega arith) (omega arith) in
        let (a, written, k) =
          copy_to_kept {E = Blocked} (replicate 6 0) 0 6 part (omega arith) (omega arith) in
        (record h { own_addr = a }, simp (cut, written) refl, refl))
      (λ e. (h, refl, refl))
