-- ===== src/Hw/Conn/Control/Kept.antt =====
-- The steps of control PDUs keep the limits of a connection.
use nrf_ble.Base.{
  ℕ, ◌+◌, ◌≤◌, ◌<◌, ◌≡◌, ◌≢◌, refl, ap, ◌∙◌, arith, min, leb, if◌then◌else◌, List, ◌∷◌, ◌++◌,
  length, length-append, replicate, Bool, false, not, Option, none, some,
}
use nrf_ble.Base.Results.{Result, ok, ◌>>=◌, index}
use nrf_ble.Base.Slices.{slice_part, index-ok}
use nrf_ble.Base.Sizes.{put_kept, copy_to_kept, if_cases}
use nrf_ble.Hw.Ccm
use nrf_ble.Hw.Ccm.{Ccm}
use nrf_ble.Hw.Ccm.Nonce.{setup-value, behind}
use nrf_ble.Ll.Pdu.Fields.{from_le16}
use nrf_ble.Hw.Conn.Coc.{u16_at}
use nrf_ble.Hw.Conn.Tx.{header_byte}
use nrf_ble.Hw.Conn.Control.{Control, transmit, write_pdu, tx, set_lengths, connection_update}

-- A control PDU that waits is an array of 19 bytes.
abbrev pub IsAnswer : Option (List ℕ) → Type 0
IsAnswer none = Unit {0}
IsAnswer (some ctrl) = length ctrl ≡ 19

-- The sizes of the buffers, and the limits of the payload of a data PDU.
abbrev pub IsLimited : Control → Type 0
IsLimited c =
    (length c.tx.tx_buf ≡ 64)
    × (c.tx.tx_pdu_max ≤ 251)
    × (c.rx_pdu_max ≤ 251)
    × (length c.stk ≡ 16)
    × (length c.ccm.cfg ≡ 45)
    × IsAnswer c.pending_control

abbrev pub Kept : Result ⊥ Control → Type 0
Kept run = (c : Control) × (run ≡ ok c) × IsLimited c

pub write_kept :
    (llid len : ℕ) (bytes : List ℕ) (c : Control)
    → 2 + length bytes ≤ 64
    → IsLimited c
    → Kept (write_pdu llid len bytes c)
write_kept llid len bytes c fits (size, a, b, k, g, w) =
    let head = header_byte llid (not c.tx.nesn) c.tx.sn in
    let (b1, e1, n1) = put_kept {E = ⊥} c.tx.tx_buf 0 head (omega arith) in
    let (b2, e2, n2) = put_kept {E = ⊥} b1 1 len (omega arith) in
    let (b3, e3, n3) = copy_to_kept {E = ⊥} b2 2 (2 + length bytes) bytes refl (omega arith) in
    (record c { tx = record (c.tx) { tx_buf = b3 } }, rw (e1, e2, e3), (omega arith, a, b, k, g, w))

pub transmit_kept : (len : ℕ) (c : Control) → len ≤ 64 → IsLimited c → Kept (transmit len c)
transmit_kept len c fits (size, a, b, k, g, w) =
    let (packet, e, n) = slice_part {E = ⊥} c.tx.tx_buf 0 len (omega arith) (omega arith) in
    (record c { air = packet ∷ c.air }, rw e, (size, a, b, k, g, w))

u16_at_total :
    (payload : List ℕ) (i : ℕ) → i + 1 < length payload → (n : ℕ) × (u16_at payload i ≡ ok n)
u16_at_total payload i h =
    let (low, e) = index-ok {E = ⊥} payload i (omega arith) in
    let (high, f) = index-ok {E = ⊥} payload (i + 1) h in
    (
      _,
      ap (λ m. m >>= λ low. index payload (i + 1) >>= λ high. ok (from_le16 low high)) e
          ∙ ap (λ m. m >>= λ high. ok (from_le16 low high)) f,
    )

chained :
    {A : Type 0} (m : Result ⊥ A) (a : A) (f : A → Result ⊥ Control)
    → m ≡ ok a
    → Kept (f a)
    → Kept (m >>= f)
chained m a f e (c, g, limited) = (c, ap (λ m. m >>= f) e ∙ g, limited)

pub lengths_kept :
    (payload : List ℕ) (c : Control)
    → 7 ≤ length payload
    → IsLimited c
    → Kept (set_lengths payload c)
lengths_kept payload c long (size, a, b, k, g, w) =
    let (max_tx, e) = u16_at_total payload 1 (omega arith) in
    let (max_rx, f) = u16_at_total payload 5 (omega arith) in
    chained _ max_tx _ e (
      chained _ max_rx _ f (
        record c {
          tx = record (c.tx) { tx_pdu_max = min max_tx 251 };
          rx_pdu_max = min max_rx 251;
        },
        refl,
        (size, omega arith, omega arith, k, g, w),
      ))

pub update_kept :
    (payload : List ℕ) (c : Control)
    → length payload ≢ 10
    → IsLimited c
    → Kept (connection_update payload c)
update_kept payload c enough limited =
    if_cases Kept (leb 10 (length payload)) _ _
      (λ e.
        let long : 11 ≤ length payload = ground arith in
        let (interval, e1) = u16_at_total payload 3 (omega arith) in
        let (timeout, e2) = u16_at_total payload 7 (omega arith) in
        let (instant, e3) = u16_at_total payload 9 (omega arith) in
        chained _ interval _ e1 (
          chained _ timeout _ e2 (
            chained _ instant _ e3 (
              record c {
                pending_update = some (interval, timeout);
                pending_update_instant = instant;
              },
              refl,
              limited,
            ))))
      (λ e. (c, refl, limited))

module _ (block : List ℕ → Bool → List ℕ → Bool × List ℕ)
    (same_size : (cfg : List ℕ) (decrypt : Bool) (pdu : List ℕ)
      → length ((block cfg decrypt pdu).1) ≡ length pdu) where
  pub tx_kept : (len : ℕ) (c : Control) → len + 4 ≤ 64 → IsLimited c → Kept (tx block len c)
  unfolding tx Ccm.process
  tx_kept len c short (size, a, b, k, g, w) =
      if_cases Kept c.encrypted _ _
        (λ e.
          let direction = if c.master then 1 else 0 in
          let (b0, e0) = index-ok {E = ⊥} c.tx.tx_buf 0 (omega arith) in
          let (b1, e1) = index-ok {E = ⊥} c.tx.tx_buf 1 (omega arith) in
          let cfg = c.stk ++ behind c.packet_counter direction in
          let n = length-append c.stk (behind c.packet_counter direction) in
          let (cfg1, f1, n1) = put_kept {E = ⊥} cfg 29 b0 (omega arith) in
          let (cfg2, f2, n2) = put_kept {E = ⊥} cfg1 30 b1 (omega arith) in
          let (cfg3, f3, n3) =
            copy_to_kept {E = ⊥} cfg2 31 45 (replicate 14 0) refl (omega arith) in
          let buf = (block cfg3 false c.tx.tx_buf).1 in
          let m = same_size cfg3 false c.tx.tx_buf in
          let c' : Control = record c {
            ccm = record { cfg = cfg3 };
            tx = record (c.tx) { tx_buf = buf };
          } in
          let limited : IsLimited c' = (omega arith, a, b, k, omega arith, w) in
          chained _ (record { cfg = cfg }) _
            (setup-value c.stk c.packet_counter direction c.ccm k g)
            (rw (e0, e1, f1, f2, f3)
              (if_cases Kept (block cfg3 false c.tx.tx_buf).0 _ _
                (λ _. transmit_kept (len + 4) c' short limited) (λ _. (c', refl, limited)))))
        (λ e. transmit_kept len c (omega arith) (size, a, b, k, g, w))
