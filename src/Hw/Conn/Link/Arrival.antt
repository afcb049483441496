-- ===== src/Hw/Conn/Link/Arrival.antt =====
-- A whole message: queued on one side, taken in on the other.
use nrf_ble.Base.{
  ℕ, suc, ◌+◌, ◌-◌, ◌^◌, ◌≤◌, ◌<◌, ◌≡◌, refl, sym, ap, ◌∙◌, arith, min, leb, ◌==◌, if◌then◌else◌,
  Bool, true, false, not, Bool-cases, inl, inr, List, [], ◌∷◌, ◌++◌, length, length-append,
  length-drop, drop, append-nil,
}
use nrf_ble.Base.Results.{ok}
use nrf_ble.Hw.Conn.Tx.{Tx, header_byte}
use nrf_ble.Hw.Conn.Rx.{Rx, Inbound, to_att, assemble}
use nrf_ble.Hw.Conn.Link.{exchange, transfer}
use nrf_ble.Hw.Conn.Link.Steps.{
  sending, finished, fragment_first, first_llid, receiving, assemble_more, assemble_last,
}
use nrf_ble.Base.{leb-false, le→leb}
use nrf_ble.Hw.Conn.Link.Exchange.{written_first, l2cap_bytes, passed_on, demux_first}
use nrf_ble.Hw.Conn.Link.Delivery.{Comes, deliver_later, transfer-finished}

first_more :
    (t : Tx) (chunk rest spare buf buf' : List ℕ)
    → 0 < length rest
    → record (sending t [] (chunk ++ rest) spare buf) {
      tx_buf = buf';
      tx_frag_offset = if leb (length (chunk ++ rest)) (length chunk) then 0 else length chunk;
      tx_pending = if leb (length (chunk ++ rest)) (length chunk) then false else true;
    }
      ≡ sending t chunk rest spare buf'
first_more t chunk rest spare buf buf' more =
    let b = length-append chunk rest in
    let len : 0 + length (chunk ++ rest) ≡ length chunk + length rest = omega arith in
    rw (leb-false (length (chunk ++ rest)) (length chunk) (omega arith)) (λ i. record t {
      tx_att = (chunk ++ rest) ++ spare;
      tx_att_len = len i;
      tx_frag_offset = length chunk;
      tx_pending = true;
      tx_cid = 4;
      tx_buf = buf';
    })

first_last :
    (t : Tx) (chunk spare buf buf' : List ℕ)
    → record (sending t [] (chunk ++ []) spare buf) {
      tx_buf = buf';
      tx_frag_offset = if leb (length (chunk ++ [])) (length chunk) then 0 else length chunk;
      tx_pending = if leb (length (chunk ++ [])) (length chunk) then false else true;
    }
      ≡ finished t (chunk ++ []) spare buf'
first_last t chunk spare buf buf' =
    let b = length-append chunk [] in
    let len : 0 + length (chunk ++ []) ≡ length (chunk ++ []) = omega arith in
    rw (le→leb (length (chunk ++ [])) (length chunk) (omega arith)) (λ i. record t {
      tx_att = (chunk ++ []) ++ spare;
      tx_att_len = len i;
      tx_frag_offset = 0;
      tx_pending = false;
      tx_cid = 4;
      tx_buf = buf';
    })

first_llid-range : (chunk rest : List ℕ) → (0 < first_llid chunk rest) × (first_llid chunk rest < 4)
first_llid-range chunk rest = elim (Bool-cases (length chunk == length (chunk ++ rest))) [
  | inl e ↦ rw e (omega arith, omega arith)
  | inr e ↦ rw e (omega arith, omega arith)
]

module _ (is_coc : ℕ → Bool) (t : Tx) (low : 5 ≤ t.tx_pdu_max) (high : t.tx_pdu_max ≤ 62) where
  exchange_first :
      (chunk rest spare buf : List ℕ) (r : Rx) (s' : Tx) (out : Inbound × Rx)
      → length buf ≡ 64
      → 0 < length chunk
      → length chunk ≡ min (length chunk + length rest) (t.tx_pdu_max - 4)
      → length (chunk ++ rest) < 2 ^ 16
      → record (sending t [] (chunk ++ rest) spare buf) {
        tx_buf = written_first t chunk rest buf;
        tx_frag_offset = if leb (length (chunk ++ rest)) (length chunk) then 0 else length chunk;
        tx_pending = if leb (length (chunk ++ rest)) (length chunk) then false else true;
      }
        ≡ s'
      → s'.tx_buf ≡ written_first t chunk rest buf
      → assemble chunk (receiving [] r.rx_l2cap (length (chunk ++ rest))) ≡ ok out
      → exchange is_coc (sending t [] (chunk ++ rest) spare buf) r ≡ ok (s', out.0, out.1)
  exchange_first chunk rest spare buf r s' out size hc exact small after written given =
      let (positive, below) = first_llid-range chunk rest in
      let n : length (l2cap_bytes chunk rest) ≡ 4 + length chunk = omega arith in
      let start = header_byte (first_llid chunk rest) (not t.nesn) t.sn in
      passed_on is_coc t (sending t [] (chunk ++ rest) spare buf) s' (first_llid chunk rest) 0
        (l2cap_bytes chunk rest) (drop (6 + length chunk) buf) r out
        (fragment_first t chunk rest spare buf size hc (omega arith) exact
          ∙ ap (λ s. ok (2 + (4 + length chunk), s)) after
          ∙ ap (λ k. ok (2 + k, s')) (sym n))
        (written
          ∙ ap (λ k. start ∷ k ∷ (l2cap_bytes chunk rest ++ drop (6 + length chunk) buf)) (sym n))
        below (omega arith)
        (demux_first is_coc t chunk rest (first_llid chunk rest) r positive small ∙ given)

  pub arrives :
      (fuel : ℕ) (chunk rest spare buf : List ℕ) (r : Rx)
      → length buf ≡ 64
      → 0 < length chunk
      → length chunk ≡ min (length chunk + length rest) (t.tx_pdu_max - 4)
      → length chunk + length rest ≤ 251
      → length rest ≤ fuel
      → length r.rx_l2cap ≡ 256
      → Comes is_coc t low high
          (suc fuel)
          (sending t [] (chunk ++ rest) spare buf)
          r
          (chunk ++ rest)
          spare
          (length (chunk ++ rest))
  unfolding transfer
  arrives fuel chunk [] spare buf r size hc exact fits enough room =
      let n = length-append chunk [] in
      let whole : chunk ++ [] ≡ chunk = append-nil chunk in
      let written = written_first t chunk [] buf in
      let junk = drop (length chunk) r.rx_l2cap in
      let left = length-drop (length chunk) r.rx_l2cap in
      let buffer = length-drop (6 + length chunk) buf in
      let filled = length-append chunk (drop (6 + length chunk) buf) in
      let taken : assemble chunk (receiving [] r.rx_l2cap (length (chunk ++ [])))
          ≡ ok (
            to_att (chunk ++ []),
            record (receiving (chunk ++ []) junk (length (chunk ++ []))) { rx_l2cap_len = 0 },
          ) =
        assemble_last [] chunk r.rx_l2cap (length (chunk ++ [])) (omega arith) (omega arith)
          (omega arith)
        ∙ ap
            (λ xs.
              ok
                (to_att xs, record (receiving xs junk (length (chunk ++ []))) { rx_l2cap_len = 0 }))
            (sym whole) in
      (
        0,
        written,
        junk,
        rw (
          exchange_first chunk [] spare buf r _ _ size hc exact (omega arith)
              (first_last t chunk spare buf written) refl taken,
          transfer-finished is_coc t low high fuel (chunk ++ []) spare written
              (record (receiving (chunk ++ []) junk (length (chunk ++ []))) { rx_l2cap_len = 0 }),
        ),
        omega arith,
        omega arith,
      )
  arrives fuel chunk (x ∷ rest) spare buf r size hc exact fits enough room =
      let n = length-append chunk (x ∷ rest) in
      let total = length (chunk ++ x ∷ rest) in
      let written = written_first t chunk (x ∷ rest) buf in
      let junk = drop (length chunk) r.rx_l2cap in
      let left = length-drop (length chunk) r.rx_l2cap in
      let buffer = length-drop (6 + length chunk) buf in
      let filled = length-append chunk (drop (6 + length chunk) buf) in
      let taken =
        assemble_more [] chunk r.rx_l2cap total (omega arith) (omega arith) (omega arith) in
      let (quiet, buf', junk', done, size', room') =
        deliver_later is_coc t low high fuel chunk (x ∷ rest) spare written junk total (omega arith)
          hc (omega arith) enough n (omega arith) (omega arith) in
      (
        suc quiet,
        buf',
        junk',
        rw (
          exchange_first chunk (x ∷ rest) spare buf r _ _ size hc exact (omega arith)
              (first_more t chunk (x ∷ rest) spare buf written (omega arith)) refl taken,
          done,
        ),
        size',
        room',
      )
