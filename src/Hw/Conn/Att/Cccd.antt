-- ===== src/Hw/Conn/Att/Cccd.antt =====
-- Writes to the server's attributes, and what is read back.
use nrf_ble.Base.{
  ℕ, ◌≤◌, ◌≡◌, refl, arith, min, List, [], ◌∷◌, ◌++◌, length, length-append, length-drop, take,
  take-append, drop, true, false,
}
use nrf_ble.Base.Results.{ok}
use nrf_ble.Base.Slices.{slice_all, slice_suffix, copy_to_fill}
use nrf_ble.Base.{◌%◌}
use nrf_ble.Hw.Conn.Tx.{Tx, queue_att}
use nrf_ble.Hw.Conn.Gatt.{Values, write, cccd_of}
use nrf_ble.Hw.Conn.Att.{Att, handle_att, handle_write}

-- The message that is pending.
abbrev pub message : Att → List ℕ
message a = take a.tx.tx_att_len a.tx.tx_att

-- A response has become the pending message.
abbrev pub answered : List ℕ → Att → Att
answered rsp a = record a {
  tx = record (a.tx) {
    tx_att = rsp ++ drop (length rsp) a.tx.tx_att;
    tx_att_len = length rsp;
    tx_pending = true;
  };
}

pub queue_att-value :
    (rsp : List ℕ) (t : Tx)
    → length t.tx_att ≡ 251
    → length rsp ≤ 251
    → queue_att rsp t
      ≡ ok (record t {
        tx_att = rsp ++ drop (length rsp) t.tx_att;
        tx_att_len = length rsp;
        tx_pending = true;
      })
unfolding queue_att
queue_att-value rsp t size short =
    let n : min (length rsp) (length t.tx_att) ≡ length rsp = omega arith in
    rw (
      n,
      slice_all {E = ⊥} rsp,
      copy_to_fill {E = ⊥} [] t.tx_att 0 (length rsp) refl rsp (omega arith) (omega arith),
    )

pub answered-size :
    (rsp : List ℕ) (a : Att)
    → length a.tx.tx_att ≡ 251
    → length rsp ≤ 251
    → length ((answered rsp a).tx.tx_att) ≡ 251
answered-size rsp a size short =
    let n = length-append rsp (drop (length rsp) a.tx.tx_att) in
    let m = length-drop (length rsp) a.tx.tx_att in omega arith

-- The configuration of notifications, and data written to the server.
abbrev configured : List ℕ → Att → Att
configured value a = record a { values = record (a.values) { nus_cccd = cccd_of value } }

-- A written value that turns notifications on: two bytes or more, of which the first is odd.
abbrev pub Enables : List ℕ → Type 0
Enables value = (x : ℕ) × (y : ℕ) × (rest : List ℕ) × (value ≡ x ∷ y ∷ rest) × (x % 2 ≡ 1)

-- A write request of at most 244 bytes to the data attribute (handle 3), on a server with arrays of
-- their sizes and no request of its own: data is reported, which is the value, and a write response
-- is pending.
pub handle_att-receives :
    (value : List ℕ) (a : Att)
    → length a.tx.tx_att ≡ 251
    → length a.values.rx_data ≡ 244
    → a.pending_request ≡ false
    → length value ≤ 244
    → (a1 : Att) × (handle_att (0x12 ∷ 3 ∷ 0 ∷ value) a ≡ ok (true, a1))
      × (take a1.values.rx_data_len a1.values.rx_data ≡ value)
      × (message a1 ≡ 0x13 ∷ [])
      × (a1.values.nus_cccd ≡ a.values.nus_cccd)
unfolding handle_att handle_write write
handle_att-receives value a size room idle short =
    let n = length value in
    let m : min n (length a.values.rx_data) ≡ n = omega arith in
    let values : Values = record (a.values) {
      rx_data = value ++ drop n a.values.rx_data;
      rx_data_len = n;
    } in
    (
      answered (0x13 ∷ []) (record a { values = values }),
      rw idle (
          rw (
            slice_suffix {E = ⊥} (0x12 ∷ 3 ∷ 0 ∷ []) value 3 (length (0x12 ∷ 3 ∷ 0 ∷ value)) refl
                refl,
            m,
            slice_all {E = ⊥} value,
            copy_to_fill {E = ⊥} [] a.values.rx_data 0 n refl value (omega arith) (omega arith),
            queue_att-value (0x13 ∷ []) a.tx size (omega arith),
          )),
      take-append n value (drop n a.values.rx_data) refl,
      refl,
      refl,
    )
