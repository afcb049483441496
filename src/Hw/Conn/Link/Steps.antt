-- ===== src/Hw/Conn/Link/Steps.antt =====
-- One fragment: what is written, decoded and taken in.
use nrf_ble.Base.{
  ℕ, ◌+◌, ◌-◌, ◌%◌, ◌≤◌, ◌<◌, ◌≡◌, refl, ap, ◌∙◌, arith, min, bit_and, leb, le→leb, leb-false,
  lt_false, ◌==◌, ==→eq, eq→==, ne→==, if◌then◌else◌, Bool, true, false, not, List, [], ◌∷◌, ◌++◌,
  length, length-append, drop, append_assoc, holds_below, holds_below_at, for_bools, for_bools_at,
}
use nrf_ble.Base.Bits.{bit_and_mask}
use nrf_ble.Base.Results.{ok, slice}
use nrf_ble.Base.Slices.{
  slice_all, slice-append, slice_prefix, copy_to-append, copy_to_fill, put_fill,
}
use nrf_ble.Ll.Pdu.Fields.{le16}
use nrf_ble.Ll.Pdu.Channel
use nrf_ble.Ll.Pdu.Channel.{DataPdu}
use nrf_ble.Ll.Pdu.Header.{has_bit}
use nrf_ble.Hw.Conn.Tx.{Tx, header_byte, write_fragment, chunk_len, tx_fragment}
use nrf_ble.Hw.Conn.Rx.{Rx, nothing, to_att, assemble}

header_table :
    holds_below 4 (λ l. for_bools λ n. for_bools λ s. bit_and (header_byte l n s) 3 == l) ≡ true
unfolding holds_below for_bools
header_table = refl

header-llid : (l : ℕ) (n s : Bool) → l < 4 → bit_and (header_byte l n s) 3 ≡ l
header-llid l n s h =
    ==→eq _ l (for_bools_at _ s (for_bools_at _ n (holds_below_at 4 _ l header_table h)))

-- The packet of a fragment as it is decoded.
abbrev pub decoded : ℕ → Bool → Bool → List ℕ → DataPdu
decoded l n s payload = record {
  llid = l;
  nesn = has_bit (header_byte l n s) 0x04;
  sn = has_bit (header_byte l n s) 0x08;
  md = has_bit (header_byte l n s) 0x10;
  payload = payload;
}

pub decode_fragment :
    (l : ℕ) (n s : Bool) (payload : List ℕ)
    → l < 4
    → length payload < 64
    → Channel.decode (header_byte l n s ∷ length payload ∷ payload) ≡ ok (decoded l n s payload)
unfolding Channel.decode
decode_fragment l n s payload hl short =
    let mask : bit_and (length payload) 63 ≡ length payload =
      bit_and_mask 6 (length payload) ∙ omega arith in
    rw (mask, eq→== (length payload) (length payload) refl, header-llid l n s hl)

-- The state of a sender: `sent` of the message has gone, `rest` has not.
abbrev pub sending : Tx → List ℕ → List ℕ → List ℕ → List ℕ → Tx
sending t sent rest spare buf = record t {
  tx_att = (sent ++ rest) ++ spare;
  tx_att_len = length sent + length rest;
  tx_frag_offset = length sent;
  tx_pending = true;
  tx_cid = 4;
  tx_buf = buf;
}

-- After the last fragment.
abbrev pub finished : Tx → List ℕ → List ℕ → List ℕ → Tx
finished t msg spare buf = record t {
  tx_att = msg ++ spare;
  tx_att_len = length msg;
  tx_frag_offset = 0;
  tx_pending = false;
  tx_cid = 4;
  tx_buf = buf;
}

abbrev pub later : Tx → List ℕ → ℕ
later t rest = min (length rest) t.tx_pdu_max

-- A fragment behind the first one.
pub fragment_later :
    (t : Tx) (sent chunk rest spare buf : List ℕ)
    → length buf ≡ 64
    → 0 < length sent
    → 0 < length chunk
    → length chunk ≤ 62
    → length chunk ≡ min (length chunk + length rest) t.tx_pdu_max
    → tx_fragment (sending t sent (chunk ++ rest) spare buf)
      ≡ ok (
        2 + length chunk,
        record (sending t sent (chunk ++ rest) spare buf) {
          tx_buf =
              header_byte 0 (not t.nesn) t.sn
              ∷ length chunk
              ∷ (chunk ++ drop (2 + length chunk) buf);
          tx_frag_offset =
              if leb (length sent + length (chunk ++ rest)) (length sent + length chunk)
              then 0
              else length sent + length chunk;
          tx_pending =
              if leb (length sent + length (chunk ++ rest)) (length sent + length chunk)
              then false
              else true;
        },
      )
unfolding tx_fragment chunk_len write_fragment
fragment_later t sent chunk rest spare buf size some_sent some_chunk short exact =
    let n = length chunk in
    let k = length sent in
    let total = length-append chunk rest in
    let more : (k == 0) ≡ false = ne→== k 0 (λ e. omega arith) in
    let left : k + length (chunk ++ rest) - k ≡ n + length rest = omega arith in
    let small : n % 256 ≡ n = omega arith in
    let b0 = header_byte 0 (not t.nesn) t.sn in
    let here : slice {E = ⊥} ((sent ++ (chunk ++ rest)) ++ spare) k (k + n) ≡ ok chunk =
      ap (λ xs. slice xs k (k + n))
        (append_assoc sent (chunk ++ rest) spare
          ∙ ap (λ xs. sent ++ xs) (append_assoc chunk rest spare))
      ∙ slice-append sent chunk (rest ++ spare) k (k + n) refl refl in
    rw (
      more,
      left,
      ← exact,
      lt_false (k + length (chunk ++ rest)) k (omega arith),
      put_fill {E = ⊥} [] buf 0 1 refl b0 refl (omega arith),
      small,
      put_fill {E = ⊥} (b0 ∷ []) buf 1 2 refl n refl (omega arith),
      here,
      copy_to_fill {E = ⊥} (b0 ∷ n ∷ []) buf 2 (2 + n) refl chunk refl (omega arith),
    )

abbrev pub first_llid : List ℕ → List ℕ → ℕ
first_llid chunk rest = if length chunk == length (chunk ++ rest) then 3 else 1

-- The first fragment has the L2CAP header before the chunk.
pub fragment_first :
    (t : Tx) (chunk rest spare buf : List ℕ)
    → length buf ≡ 64
    → 0 < length chunk
    → length chunk ≤ 58
    → length chunk ≡ min (length chunk + length rest) (t.tx_pdu_max - 4)
    → tx_fragment (sending t [] (chunk ++ rest) spare buf)
      ≡ ok (
        2 + (4 + length chunk),
        record (sending t [] (chunk ++ rest) spare buf) {
          tx_buf =
              (header_byte (first_llid chunk rest) (not t.nesn) t.sn ∷ (4 + length chunk) ∷ [])
              ++ (le16 (length (chunk ++ rest)) ++ le16 4 ++ chunk)
              ++ drop (6 + length chunk) buf;
          tx_frag_offset = if leb (length (chunk ++ rest)) (length chunk) then 0 else length chunk;
          tx_pending = if leb (length (chunk ++ rest)) (length chunk) then false else true;
        },
      )
unfolding tx_fragment chunk_len write_fragment
fragment_first t chunk rest spare buf size some_chunk short exact =
    let n = length chunk in
    let whole = length (chunk ++ rest) in
    let total = length-append chunk rest in
    let none_sent : 0 + whole ≡ whole = omega arith in
    let left : whole - 0 ≡ n + length rest = omega arith in
    let start : 0 + n ≡ n = omega arith in
    let small : (4 + n) % 256 ≡ 4 + n = omega arith in
    let l = first_llid chunk rest in
    let b0 = header_byte l (not t.nesn) t.sn in
    let here : slice {E = ⊥} ((chunk ++ rest) ++ spare) 0 n ≡ ok chunk =
      ap (λ xs. slice xs 0 n) (append_assoc chunk rest spare)
      ∙ slice_prefix chunk (rest ++ spare) n refl in
    rw (
      none_sent,
      left,
      ← exact,
      start,
      lt_false whole 0 (omega arith),
      put_fill {E = ⊥} [] buf 0 1 refl b0 refl (omega arith),
      small,
      put_fill {E = ⊥} (b0 ∷ []) buf 1 2 refl (4 + n) refl (omega arith),
      here,
      copy_to_fill {E = ⊥} (b0 ∷ (4 + n) ∷ []) buf 2 4 refl (le16 whole) refl (omega arith),
      copy_to_fill {E = ⊥} (b0 ∷ (4 + n) ∷ le16 whole) buf 4 6 refl (le16 4) refl (omega arith),
      copy_to_fill {E = ⊥} (b0 ∷ (4 + n) ∷ (le16 whole ++ le16 4)) buf 6 (6 + n) refl chunk refl
          (omega arith),
    )

-- The state of a receiver that has taken in the first `got` of a message of `total` bytes.
abbrev pub receiving : List ℕ → List ℕ → ℕ → Rx
receiving got junk total = record {
  rx_l2cap = got ++ junk;
  rx_l2cap_len = length got;
  rx_l2cap_msg_len = total;
  rx_l2cap_cid = 4;
}

pub assemble_more :
    (got chunk junk : List ℕ) (total : ℕ)
    → length got + length junk ≡ 256
    → length got + length chunk < total
    → total ≤ 256
    → assemble chunk (receiving got junk total)
      ≡ ok (nothing, receiving (got ++ chunk) (drop (length chunk) junk) total)
unfolding assemble
assemble_more got chunk junk total size more fits =
    let all = length-append got junk in
    let longer = length-append got chunk in
    let n : min (length chunk) (length (got ++ junk) - length got) ≡ length chunk = omega arith in
    let m : min total (length (got ++ junk)) ≡ total = omega arith in
    let part : slice {E = ⊥} chunk 0 (length chunk) ≡ ok chunk = slice_all chunk in
    rw (
      n,
      m,
      lt_false (length (got ++ junk)) (length got) (omega arith),
      part,
      copy_to-append {E = ⊥} got junk chunk (length got) (length got + length chunk) refl refl
          (omega arith),
      leb-false total (length got + length chunk) more,
      ← longer,
    )

pub assemble_last :
    (got chunk junk : List ℕ) (total : ℕ)
    → length got + length junk ≡ 256
    → length got + length chunk ≡ total
    → total ≤ 256
    → assemble chunk (receiving got junk total)
      ≡ ok (
        to_att (got ++ chunk),
        record (receiving (got ++ chunk) (drop (length chunk) junk) total) { rx_l2cap_len = 0 },
      )
unfolding assemble
assemble_last got chunk junk total size last fits =
    let all = length-append got junk in
    let longer = length-append got chunk in
    let n : min (length chunk) (length (got ++ junk) - length got) ≡ length chunk = omega arith in
    let m : min total (length (got ++ junk)) ≡ total = omega arith in
    rw (
      n,
      m,
      lt_false (length (got ++ junk)) (length got) (omega arith),
      slice_all {E = ⊥} chunk,
      copy_to-append {E = ⊥} got junk chunk (length got) (length got + length chunk) refl refl
          (omega arith),
      le→leb total (length got + length chunk) (omega arith),
      slice_prefix {E = ⊥} (got ++ chunk) (drop (length chunk) junk) total (longer ∙ last),
    )
