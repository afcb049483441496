-- ===== src/Hw/Conn/Link/Exchange.antt =====
-- One fragment from one side to the other.
use nrf_ble.Base.{
  ℕ, ◌+◌, ◌%◌, ◌^◌, ◌/◌, ◌<◌, ◌≡◌, refl, sym, ap, ◌∙◌, arith, leb, le→leb, leb-false, lt_false,
  ne→==, if◌then◌else◌, Bool, true, false, not, List, [], ◌∷◌, ◌++◌, length, length-append, drop,
  append_assoc, append-nil,
}
use nrf_ble.Base.Results.{ok, Error, slice}
use nrf_ble.Base.Slices.{slice_prefix, slice_suffix}
use nrf_ble.Ll.Pdu.Fields.{le16, from_le16}
use nrf_ble.Hw.Conn.Tx.{Tx, header_byte, tx_fragment}
use nrf_ble.Hw.Conn.Rx.{Rx, Inbound, assemble, demux}
use nrf_ble.Hw.Conn.Link.{exchange}
use nrf_ble.Hw.Conn.Link.Steps.{decode_fragment, sending, finished, first_llid, receiving}

-- The sender's buffer after a fragment.
abbrev pub written_later : Tx → List ℕ → List ℕ → List ℕ
written_later t chunk buf =
    header_byte 0 (not t.nesn) t.sn ∷ length chunk ∷ (chunk ++ drop (2 + length chunk) buf)

abbrev pub l2cap_bytes : List ℕ → List ℕ → List ℕ
l2cap_bytes chunk rest = le16 (length (chunk ++ rest)) ++ le16 4 ++ chunk

abbrev pub written_first : Tx → List ℕ → List ℕ → List ℕ → List ℕ
written_first t chunk rest buf =
    (header_byte (first_llid chunk rest) (not t.nesn) t.sn ∷ (4 + length chunk) ∷ [])
    ++ l2cap_bytes chunk rest
    ++ drop (6 + length chunk) buf

-- The sender after a fragment, with more to come and without.
pub sending_more :
    (t : Tx) (sent chunk rest spare buf buf' : List ℕ)
    → 0 < length rest
    → record (sending t sent (chunk ++ rest) spare buf) {
      tx_buf = buf';
      tx_frag_offset =
          if leb (length sent + length (chunk ++ rest)) (length sent + length chunk)
          then 0
          else length sent + length chunk;
      tx_pending =
          if leb (length sent + length (chunk ++ rest)) (length sent + length chunk)
          then false
          else true;
    }
      ≡ sending t (sent ++ chunk) rest spare buf'
sending_more t sent chunk rest spare buf buf' more =
    let a = length-append sent chunk in
    let b = length-append chunk rest in
    let att = ap (λ xs. xs ++ spare) (sym (append_assoc sent chunk rest)) in
    let len : length sent + length (chunk ++ rest) ≡ length (sent ++ chunk) + length rest =
      omega arith in
    let offset : length sent + length chunk ≡ length (sent ++ chunk) = sym a in
    rw (leb-false (length sent + length (chunk ++ rest)) (length sent + length chunk) (omega arith))
      (λ i. record t {
        tx_att = att i;
        tx_att_len = len i;
        tx_frag_offset = offset i;
        tx_pending = true;
        tx_cid = 4;
        tx_buf = buf';
      })

pub sending_last :
    (t : Tx) (sent chunk spare buf buf' : List ℕ)
    → record (sending t sent (chunk ++ []) spare buf) {
      tx_buf = buf';
      tx_frag_offset =
          if leb (length sent + length (chunk ++ [])) (length sent + length chunk)
          then 0
          else length sent + length chunk;
      tx_pending =
          if leb (length sent + length (chunk ++ [])) (length sent + length chunk)
          then false
          else true;
    }
      ≡ finished t (sent ++ chunk) spare buf'
sending_last t sent chunk spare buf buf' =
    let a = length-append sent chunk in
    let b = append-nil chunk in
    let c = ap length b in
    let att = ap (λ xs. (sent ++ xs) ++ spare) b in
    let len : length sent + length (chunk ++ []) ≡ length (sent ++ chunk) = omega arith in
    rw (le→leb (length sent + length (chunk ++ [])) (length sent + length chunk) (omega arith))
      (λ i. record t {
        tx_att = att i;
        tx_att_len = len i;
        tx_frag_offset = 0;
        tx_pending = false;
        tx_cid = 4;
        tx_buf = buf';
      })

module _ (is_coc : ℕ → Bool) (t : Tx) where
  -- What arrives, once the fragment has been written and its packet decoded.
  pub passed_on :
      (s s' : Tx) (l total : ℕ) (payload tail : List ℕ) (r : Rx) (out : Inbound × Rx)
      → tx_fragment s ≡ ok (2 + length payload, s')
      → s'.tx_buf ≡ (header_byte l (not t.nesn) t.sn ∷ length payload ∷ payload) ++ tail
      → l < 4
      → length payload < 64
      → demux is_coc payload l r ≡ ok out
      → exchange is_coc s r ≡ ok (s', out.0, out.1)
  unfolding exchange
  passed_on s s' l total payload tail r out e written hl short given =
      let packet = header_byte l (not t.nesn) t.sn ∷ length payload ∷ payload in
      let heard : slice {E = Error} s'.tx_buf 0 (2 + length payload) ≡ ok packet =
        ap (λ xs. slice xs 0 (2 + length payload)) written
        ∙ slice_prefix packet tail (2 + length payload) (omega arith) in
      rw (e, heard, decode_fragment l (not t.nesn) t.sn payload hl short, given)

  pub demux_later :
      (chunk got junk : List ℕ) (total : ℕ)
      → 0 < length got
      → demux is_coc chunk 0 (receiving got junk total) ≡ assemble chunk (receiving got junk total)
  unfolding demux
  demux_later chunk got junk total some_got = rw (ne→== (length got) 0 (λ e. omega arith))

  pub demux_first :
      (chunk rest : List ℕ) (l : ℕ) (r : Rx)
      → 0 < l
      → length (chunk ++ rest) < 2 ^ 16
      → demux is_coc (l2cap_bytes chunk rest) l r
        ≡ assemble chunk (receiving [] r.rx_l2cap (length (chunk ++ rest)))
  unfolding demux
  demux_first chunk rest l r positive small =
      let whole = length (chunk ++ rest) in
      let size : from_le16 (whole % 256) (whole / 2 ^ 8 % 256) ≡ whole = omega arith in
      rw (
        ne→== l 0 (λ e. omega arith),
        lt_false (length (l2cap_bytes chunk rest)) 4 (omega arith),
        slice_suffix {E = ⊥} (le16 whole ++ le16 4) chunk 4 (length (l2cap_bytes chunk rest)) refl
            refl,
        size,
      )
