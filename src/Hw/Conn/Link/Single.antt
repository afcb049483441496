-- ===== src/Hw/Conn/Link/Single.antt =====
-- A message that one data PDU holds: sent, decoded and taken in, on any channel.
use nrf_ble.Base.{
  ℕ, ◌+◌, ◌-◌, ◌%◌, ◌/◌, ◌^◌, ◌≤◌, ◌<◌, ◌≡◌, refl, sym, ap, ◌∙◌, arith, min, le→leb, lt_false,
  eq→==, ne→==, Bool, true, false, not, List, [], ◌∷◌, ◌++◌, length, drop,
}
use nrf_ble.Base.Results.{ok}
use nrf_ble.Base.Slices.{slice_prefix, slice_suffix, copy_to_fill, put_fill}
use nrf_ble.Ll.Pdu.Fields.{le16, from_le16}
use nrf_ble.Hw.Conn.Tx.{Tx, header_byte, write_fragment, chunk_len, tx_fragment}
use nrf_ble.Hw.Conn.Rx.{Rx, Inbound, to_coc, to_signaling, demux}
use nrf_ble.Hw.Conn.Link.{exchange}
use nrf_ble.Hw.Conn.Link.Exchange.{passed_on}

-- The payload of the PDU.
abbrev pub framed : ℕ → List ℕ → List ℕ
framed cid msg = le16 (length msg) ++ le16 cid ++ msg

-- The sender after the PDU.
abbrev pub gone : Tx → List ℕ → Tx
gone t msg = record t {
  tx_buf =
      (header_byte 3 (not t.nesn) t.sn ∷ (4 + length msg) ∷ [])
      ++ framed t.tx_cid msg
      ++ drop (6 + length msg) t.tx_buf;
  tx_frag_offset = 0;
  tx_pending = false;
}

-- The receiver after the header.
abbrev pub addressed : ℕ → List ℕ → Rx → Rx
addressed cid msg r = record r {
  rx_l2cap_len = 0;
  rx_l2cap_msg_len = length msg;
  rx_l2cap_cid = cid;
}

-- The message is pending, from its start, and one PDU holds it.
pub record Holds (t : Tx) (msg spare : List ℕ) : Type 0 where
  pub att : t.tx_att ≡ msg ++ spare
  pub att_len : t.tx_att_len ≡ length msg
  pub at_start : t.tx_frag_offset ≡ 0
  pub buf_size : length t.tx_buf ≡ 64
  pub fits : length msg + 4 ≤ t.tx_pdu_max
  pub pdu_high : t.tx_pdu_max ≤ 62

fragment_single :
    (t : Tx) (msg spare : List ℕ)
    → Holds t msg spare
    → tx_fragment t ≡ ok (2 + (4 + length msg), gone t msg)
unfolding tx_fragment chunk_len write_fragment
fragment_single t msg spare h =
    let n = length msg in
    let size = h.buf_size in
    let fits = h.fits in
    let high = h.pdu_high in
    let chunk : min (n - 0) (t.tx_pdu_max - 4) ≡ n = omega arith in
    let small : (4 + n) % 256 ≡ 4 + n = omega arith in
    let start : 0 + n ≡ n = omega arith in
    let b0 = header_byte 3 (not t.nesn) t.sn in
    rw
      (
        h.att,
        h.att_len,
        h.at_start,
        chunk,
        eq→== n n refl,
        start,
        lt_false n 0 (omega arith),
        put_fill {E = ⊥} [] t.tx_buf 0 1 refl b0 refl (omega arith),
        small,
        put_fill {E = ⊥} (b0 ∷ []) t.tx_buf 1 2 refl (4 + n) refl (omega arith),
        slice_prefix {E = ⊥} msg spare n refl,
        copy_to_fill {E = ⊥} (b0 ∷ (4 + n) ∷ []) t.tx_buf 2 4 refl (le16 n) refl (omega arith),
        copy_to_fill {E = ⊥} (b0 ∷ (4 + n) ∷ le16 n) t.tx_buf 4 6 refl (le16 t.tx_cid) refl
            (omega arith),
        copy_to_fill {E = ⊥} (b0 ∷ (4 + n) ∷ (le16 n ++ le16 t.tx_cid)) t.tx_buf 6 (6 + n) refl msg
            refl (omega arith),
        le→leb n n (omega arith),
      )
      refl

module _ (is_coc : ℕ → Bool) where
  single :
      (t : Tx) (r : Rx) (msg spare : List ℕ) (out : Inbound × Rx)
      → Holds t msg spare
      → demux is_coc (framed t.tx_cid msg) 3 r ≡ ok out
      → exchange is_coc t r ≡ ok (gone t msg, out.0, out.1)
  single t r msg spare out h given =
      let fits = h.fits in
      let high = h.pdu_high in
      let n : length (framed t.tx_cid msg) ≡ 4 + length msg = omega arith in
      let start = header_byte 3 (not t.nesn) t.sn in
      let tail = drop (6 + length msg) t.tx_buf in
      passed_on is_coc t t (gone t msg) 3 0 (framed t.tx_cid msg) tail r out
        (fragment_single t msg spare h ∙ ap (λ k. ok (2 + k, gone t msg)) (sym n))
        (ap (λ k. start ∷ k ∷ (framed t.tx_cid msg ++ tail)) (sym n)) (omega arith) (omega arith)
        given

  -- A message on an open channel is for the channel.
  pub exchange-coc :
      (t : Tx) (r : Rx) (msg spare : List ℕ)
      → Holds t msg spare
      → 7 ≤ t.tx_cid
      → t.tx_cid < 2 ^ 16
      → is_coc t.tx_cid ≡ true
      → exchange is_coc t r ≡ ok (gone t msg, to_coc msg, addressed t.tx_cid msg r)
  unfolding demux
  exchange-coc t r msg spare h dynamic small opened =
      let n = length msg in
      let fits = h.fits in
      let high = h.pdu_high in
      let size : from_le16 (n % 256) (n / 2 ^ 8 % 256) ≡ n = omega arith in
      let cid : from_le16 (t.tx_cid % 256) (t.tx_cid / 2 ^ 8 % 256) ≡ t.tx_cid = omega arith in
      single t r msg spare (to_coc msg, addressed t.tx_cid msg r) h
        (rw (
          lt_false (length (framed t.tx_cid msg)) 4 (omega arith),
          slice_suffix {E = ⊥} (le16 n ++ le16 t.tx_cid) msg 4 (length (framed t.tx_cid msg)) refl
              refl,
          size,
          cid,
          ne→== t.tx_cid 6 (λ e. omega arith),
          ne→== t.tx_cid 5 (λ e. omega arith),
          ne→== t.tx_cid 4 (λ e. omega arith),
          opened,
        ))

  -- A message on the signaling channel is for the handler of signaling.
  pub exchange-signaling :
      (t : Tx) (r : Rx) (msg spare : List ℕ)
      → Holds t msg spare
      → t.tx_cid ≡ 5
      → exchange is_coc t r ≡ ok (gone t msg, to_signaling msg, addressed 5 msg r)
  unfolding demux
  exchange-signaling t r msg spare h signaling =
      let n = length msg in
      let fits = h.fits in
      let high = h.pdu_high in
      let size : from_le16 (n % 256) (n / 2 ^ 8 % 256) ≡ n = omega arith in
      single t r msg spare (to_signaling msg, addressed 5 msg r) h
        (rw (
          signaling,
          lt_false (length (framed 5 msg)) 4 (omega arith),
          slice_suffix {E = ⊥} (le16 n ++ le16 5) msg 4 (length (framed 5 msg)) refl refl,
          size,
        ))
