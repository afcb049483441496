-- ===== src/Hw/Conn/Control/Answer.antt =====
-- The packets that a connection transmits in answer to control PDUs.
use nrf_ble.Base.{
  ℕ, ◌+◌, ◌≤◌, ◌≡◌, refl, ◌∙◌, arith, List, [], ◌∷◌, ◌++◌, length, drop, Bool, true, false, not,
  none,
}
use nrf_ble.Base.Results.{ok, err, invalid_length}
use nrf_ble.Base.Slices.{slice_prefix, put_fill, copy_to_fill}
use nrf_ble.Base.Sizes.{if_false}
use nrf_ble.Ll.Pdu.Channel
use nrf_ble.Hw.Conn.Tx.{header_byte}
use nrf_ble.Hw.Conn.Link.Steps.{decoded, decode_fragment}
use nrf_ble.Hw.Conn.Control.{Control, transmit, write_pdu, tx, respond, handle_ll_control}

-- A packet with a header of a connection's next one.
abbrev pub packet : ℕ → ℕ → List ℕ → Control → List ℕ
packet llid len bytes c = header_byte llid (not c.tx.nesn) c.tx.sn ∷ len ∷ bytes

-- The connection after a packet has been written and transmitted.
abbrev pub sent : ℕ → ℕ → List ℕ → Control → Control
sent llid len bytes c = record c {
  tx = record (c.tx) { tx_buf = packet llid len bytes c ++ drop (2 + length bytes) c.tx.tx_buf };
  air = packet llid len bytes c ∷ c.air;
}

write_pdu-value :
    (llid len : ℕ) (bytes : List ℕ) (c : Control)
    → length c.tx.tx_buf ≡ 64
    → length bytes ≤ 62
    → write_pdu llid len bytes c
      ≡ ok (record c {
        tx = record (c.tx) {
          tx_buf = packet llid len bytes c ++ drop (2 + length bytes) c.tx.tx_buf;
        };
      })
write_pdu-value llid len bytes c size fits =
    let head = header_byte llid (not c.tx.nesn) c.tx.sn in
    rw (
      put_fill {E = ⊥} [] c.tx.tx_buf 0 1 refl head refl (omega arith),
      put_fill {E = ⊥} (head ∷ []) c.tx.tx_buf 1 2 refl len refl (omega arith),
      copy_to_fill {E = ⊥} (head ∷ len ∷ []) c.tx.tx_buf 2 (2 + length bytes) refl bytes refl
          (omega arith),
    )

transmit-value :
    (llid len : ℕ) (bytes : List ℕ) (total : ℕ) (c : Control)
    → total ≡ 2 + length bytes
    → transmit total (record c {
      tx = record (c.tx) {
        tx_buf = packet llid len bytes c ++ drop (2 + length bytes) c.tx.tx_buf;
      };
    })
      ≡ ok (sent llid len bytes c)
transmit-value llid len bytes total c h = rw (
    slice_prefix {E = ⊥} (packet llid len bytes c) (drop (2 + length bytes) c.tx.tx_buf) total
      (omega arith))

transmitted :
    (block : List ℕ → Bool → List ℕ → Bool × List ℕ) (llid len : ℕ) (bytes : List ℕ) (total : ℕ)
    (c : Control)
    → total ≡ 2 + length bytes
    → c.encrypted ≡ false
    → tx block total (record c {
      tx = record (c.tx) {
        tx_buf = packet llid len bytes c ++ drop (2 + length bytes) c.tx.tx_buf;
      };
    })
      ≡ ok (sent llid len bytes c)
unfolding tx
transmitted block llid len bytes total c h clear =
    if_false c.encrypted _ _ clear ∙ transmit-value llid len bytes total c h

module _ (block : List ℕ → Bool → List ℕ → Bool × List ℕ) where
  -- Without encryption, and with nothing to send, `respond` transmits one packet, which a receiver
  -- decodes to an empty data PDU with our sequence number and the acknowledgement turned.
  pub respond-empty :
      (c : Control)
      → c.pending_control ≡ none
      → c.tx.tx_pending ≡ false
      → length c.tx.tx_buf ≡ 64
      → c.encrypted ≡ false
      → (c' : Control) × (p : List ℕ) × (respond block c ≡ ok c')
        × (c'.air ≡ p ∷ c.air)
        × (Channel.decode p ≡ ok (decoded 3 (not c.tx.nesn) c.tx.sn []))
  unfolding respond
  respond-empty c none_waits nothing_pending room clear =
      let free : Control = record c { pending_control = none } in
      (
        sent 3 0 [] free,
        packet 3 0 [] c,
        rw none_waits (
            if_false c.tx.tx_pending _ _ nothing_pending
            ∙ rw (write_pdu-value 3 0 [] free room (omega arith))
                (transmitted block 3 0 [] 2 free refl clear)),
        refl,
        decode_fragment 3 (not c.tx.nesn) c.tx.sn [] (omega arith) (omega arith),
      )

  -- The answer to LL_VERSION_IND, on a transmit buffer of its size: one packet is transmitted, which
  -- the decoder of data channel PDUs refuses, since its header states 4 bytes and 6 follow.
  pub handle_ll_control-version :
      (rest : List ℕ) (c : Control)
      → length c.tx.tx_buf ≡ 64
      → (c' : Control) × (p : List ℕ) × (handle_ll_control block (0x0C ∷ rest) c ≡ ok (ok tt, c'))
        × (c'.air ≡ p ∷ c.air)
        × (length p ≡ 8)
        × (Channel.decode p ≡ err invalid_length)
  unfolding handle_ll_control Channel.decode
  handle_ll_control-version rest c room =
      let bytes : List ℕ = 0x0C ∷ 0x0C ∷ 0xFF ∷ 0xFF ∷ 0x00 ∷ 0x00 ∷ [] in
      (
        record (sent 2 4 bytes c) { peer_version_ok = true },
        packet 2 4 bytes c,
        rw (write_pdu-value 2 4 bytes c room (omega arith), transmit-value 2 4 bytes 8 c refl),
        refl,
        refl,
        refl,
      )
