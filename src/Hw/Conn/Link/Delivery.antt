-- ===== src/Hw/Conn/Link/Delivery.antt =====
-- All fragments of a message from one side to the other.
use mathlib.Core.Path.{subst}
use nrf_ble.Base.{
  ℕ, zero, suc, ◌+◌, ◌≤◌, ◌<◌, ◌≡◌, refl, sym, ap, ◌∙◌, arith, min, Bool, List, [], ◌∷◌, ◌++◌,
  length, length-append, length-take, length-drop, take, drop, append_assoc, append-nil,
  take-append-drop, replicate,
}
use nrf_ble.Base.Results.{ok}
use nrf_ble.Hw.Conn.Tx.{Tx}
use nrf_ble.Hw.Conn.Rx.{Rx, nothing, to_att}
use nrf_ble.Hw.Conn.Link.{exchange, transfer}
use nrf_ble.Hw.Conn.Link.Steps.{
  sending, finished, fragment_later, receiving, assemble_more, assemble_last,
}
use nrf_ble.Hw.Conn.Link.Exchange.{
  written_later, sending_more, sending_last, passed_on, demux_later,
}

module _ (is_coc : ℕ → Bool) (t : Tx) (low : 5 ≤ t.tx_pdu_max) (high : t.tx_pdu_max ≤ 62) where
  exchange_more :
      (sent chunk rest spare buf junk : List ℕ) (total : ℕ)
      → length buf ≡ 64
      → 0 < length sent
      → 0 < length chunk
      → 0 < length rest
      → length chunk ≡ min (length chunk + length rest) t.tx_pdu_max
      → total ≡ length sent + (length chunk + length rest)
      → length sent + length junk ≡ 256
      → total ≤ 256
      → exchange is_coc (sending t sent (chunk ++ rest) spare buf) (receiving sent junk total)
        ≡ ok (
          sending t (sent ++ chunk) rest spare (written_later t chunk buf),
          nothing,
          receiving (sent ++ chunk) (drop (length chunk) junk) total,
        )
  exchange_more sent chunk rest spare buf junk total size hs hc hr exact all room fits =
      passed_on is_coc t (sending t sent (chunk ++ rest) spare buf) _ 0 total chunk
        (drop (2 + length chunk) buf) (receiving sent junk total)
        (nothing, receiving (sent ++ chunk) (drop (length chunk) junk) total)
        (fragment_later t sent chunk rest spare buf size hs hc (omega arith) exact
          ∙ ap (λ s. ok (2 + length chunk, s))
              (sending_more t sent chunk rest spare buf (written_later t chunk buf) hr))
        refl (omega arith) (omega arith)
        (demux_later is_coc t chunk sent junk total hs
          ∙ assemble_more sent chunk junk total room (omega arith) fits)

  exchange_end :
      (sent chunk spare buf junk : List ℕ) (total : ℕ)
      → length buf ≡ 64
      → 0 < length sent
      → 0 < length chunk
      → length chunk ≤ t.tx_pdu_max
      → total ≡ length sent + length chunk
      → length sent + length junk ≡ 256
      → total ≤ 256
      → exchange is_coc (sending t sent (chunk ++ []) spare buf) (receiving sent junk total)
        ≡ ok (
          finished t (sent ++ chunk) spare (written_later t chunk buf),
          to_att (sent ++ chunk),
          record (receiving (sent ++ chunk) (drop (length chunk) junk) total) { rx_l2cap_len = 0 },
        )
  exchange_end sent chunk spare buf junk total size hs hc fit all room fits =
      passed_on is_coc t (sending t sent (chunk ++ []) spare buf) _ 0 total chunk
        (drop (2 + length chunk) buf) (receiving sent junk total)
        (
          to_att (sent ++ chunk),
          record (receiving (sent ++ chunk) (drop (length chunk) junk) total) { rx_l2cap_len = 0 },
        )
        (fragment_later t sent chunk [] spare buf size hs hc (omega arith) (omega arith)
          ∙ ap (λ s. ok (2 + length chunk, s))
              (sending_last t sent chunk spare buf (written_later t chunk buf)))
        refl (omega arith) (omega arith)
        (demux_later is_coc t chunk sent junk total hs
          ∙ assemble_last sent chunk junk total room (sym all) fits)

  -- What a transfer from these states comes to.
  abbrev pub Comes : ℕ → Tx → Rx → List ℕ → List ℕ → ℕ → Type 0
  Comes fuel s r msg spare total =
      (quiet : ℕ) × (buf : List ℕ) × (junk : List ℕ) × (transfer is_coc fuel s r
        ≡ ok (
          finished t msg spare buf,
          replicate quiet nothing ++ to_att msg ∷ [],
          record (receiving msg junk total) { rx_l2cap_len = 0 },
        ))
      × (length buf ≡ 64)
      × (length msg + length junk ≡ 256)

  pub transfer-finished :
      (fuel : ℕ) (msg spare buf : List ℕ) (r : Rx)
      → transfer is_coc fuel (finished t msg spare buf) r ≡ ok (finished t msg spare buf, [], r)
  unfolding transfer
  transfer-finished zero msg spare buf r = refl
  transfer-finished (suc fuel) msg spare buf r = refl

  after_chunk :
      (fuel : ℕ) (sent chunk rest spare buf junk : List ℕ) (total : ℕ)
      → length buf ≡ 64
      → 0 < length sent
      → 0 < length chunk
      → length chunk ≡ min (length chunk + length rest) t.tx_pdu_max
      → total ≡ length sent + (length chunk + length rest)
      → length sent + length junk ≡ 256
      → total ≤ 256
      → (0 < length rest
          → Comes fuel
              (sending t (sent ++ chunk) rest spare (written_later t chunk buf))
              (receiving (sent ++ chunk) (drop (length chunk) junk) total)
              ((sent ++ chunk) ++ rest)
              spare
              total)
      → Comes
          (suc fuel)
          (sending t sent (chunk ++ rest) spare buf)
          (receiving sent junk total)
          (sent ++ (chunk ++ rest))
          spare
          total
  unfolding transfer
  after_chunk fuel sent chunk [] spare buf junk total size hs hc exact all room fits go =
      let written = written_later t chunk buf in
      let left = drop (length chunk) junk in
      let whole : sent ++ (chunk ++ []) ≡ sent ++ chunk =
        ap (λ xs. sent ++ xs) (append-nil chunk) in
      let grown = length-append sent chunk in
      let behind = length-drop (length chunk) junk in
      let buffer = length-drop (2 + length chunk) buf in
      let filled = length-append chunk (drop (2 + length chunk) buf) in
      subst
        (λ msg.
          Comes (suc fuel) (sending t sent (chunk ++ []) spare buf) (receiving sent junk total) msg
            spare total)
        (sym whole)
        (
          0,
          written,
          left,
          rw (
            exchange_end sent chunk spare buf junk total size hs hc (omega arith) (omega arith) room
                fits,
            transfer-finished fuel (sent ++ chunk) spare written
                (record (receiving (sent ++ chunk) left total) { rx_l2cap_len = 0 }),
          ),
          omega arith,
          omega arith,
        )
  after_chunk fuel sent chunk (x ∷ rest) spare buf junk total size hs hc exact all room fits go =
      let (quiet, buf', junk', done, size', room') = go (omega arith) in
      let regroup = append_assoc sent chunk (x ∷ rest) in
      (
        suc quiet,
        buf',
        junk',
        rw (
          exchange_more sent chunk (x ∷ rest) spare buf junk total size hs hc (omega arith) exact
              all room fits,
          ← regroup,
          done,
        ),
        size',
        rw (← regroup) room',
      )

  pub deliver_later :
      (fuel : ℕ) (sent rest spare buf junk : List ℕ) (total : ℕ)
      → length buf ≡ 64
      → 0 < length sent
      → 0 < length rest
      → length rest ≤ fuel
      → total ≡ length sent + length rest
      → length sent + length junk ≡ 256
      → total ≤ 256
      → Comes fuel
          (sending t sent rest spare buf)
          (receiving sent junk total)
          (sent ++ rest)
          spare
          total
  deliver_later zero sent rest spare buf junk total size hs hr enough all room fits =
      absurd (omega arith)
  deliver_later (suc fuel) sent rest spare buf junk total size hs hr enough all room fits =
      let m = min (length rest) t.tx_pdu_max in
      let chunk = take m rest in
      let rest' = drop m rest in
      let n : length chunk ≡ m = length-take m rest ∙ omega arith in
      let n' = length-drop m rest in
      let grown = length-append sent chunk in
      let behind = length-drop (length chunk) junk in
      let buffer = length-drop (2 + length chunk) buf in
      let filled = length-append chunk (drop (2 + length chunk) buf) in
      subst
        (λ xs.
          Comes (suc fuel) (sending t sent xs spare buf) (receiving sent junk total) (sent ++ xs)
            spare total)
        (take-append-drop m rest)
        (after_chunk fuel sent chunk rest' spare buf junk total size hs (omega arith) (omega arith)
          (omega arith) room fits
          (λ some_left.
            deliver_later fuel (sent ++ chunk) rest' spare (written_later t chunk buf)
              (drop (length chunk) junk) total (omega arith) (omega arith) some_left (omega arith)
              (omega arith) (omega arith) fits))
