-- ===== src/Hw/Conn/Coc/Send.antt =====
-- Sending on a channel: what it costs, and what it brings to the other side.
use nrf_ble.Base.{
  ℕ, ◌+◌, ◌-◌, ◌%◌, ◌/◌, ◌^◌, ◌≤◌, ◌<◌, ◌≡◌, refl, ap, ◌∙◌, arith, min, lt→ltb, lt_false, ltb-cases,
  eq→==, ne→==, List, [], ◌∷◌, ◌++◌, length, drop, replicate, true, none, some, Option-cases, ◌⊎◌,
  inl, inr,
}
use nrf_ble.Base.Results.{ok, err, not_running, invalid_length}
use nrf_ble.Base.Slices.{slice_all, slice_prefix, slice_suffix, copy_to_fill}
use nrf_ble.Ll.Pdu.Fields.{le16, from_le16}
use nrf_ble.Hw.Conn.Tx.{queue_signaling}
use nrf_ble.Hw.Conn.Coc.{Coc, Endpoint, le_flow_control_credit}
use nrf_ble.Hw.Conn.Coc.Sdu.{l2cap_send, send_on, send_if, take_in, complete_sdu}

-- The endpoint after a message has been accepted for sending.
abbrev pub sent : Coc → List ℕ → Endpoint → Endpoint
sent coc payload e = record e {
  coc = some (record coc { credits = coc.credits - 1 });
  tx = record (e.tx) {
    tx_att = le16 (length payload) ++ payload ++ drop (2 + length payload) e.tx.tx_att;
    tx_att_len = length payload + 2;
    tx_cid = coc.local_cid;
    tx_frag_offset = 0;
    tx_pending = true;
  };
}

pub send_on-sent :
    (coc : Coc) (payload : List ℕ) (e : Endpoint)
    → length e.tx.tx_att ≡ 251
    → length payload ≤ coc.mtu
    → length payload ≤ 249
    → 0 < coc.credits
    → send_on coc payload e ≡ ok (ok tt, sent coc payload e)
send_on-sent coc payload e size fits room rich =
    let n = length payload in
    rw
      (
        lt_false coc.mtu n fits,
        lt_false (length e.tx.tx_att) (n + 2) (omega arith),
        ne→== coc.credits 0 (λ z. omega arith),
        copy_to_fill {E = ⊥} [] e.tx.tx_att 0 2 refl (le16 n) refl (omega arith),
        copy_to_fill {E = ⊥} (le16 n) e.tx.tx_att 2 (n + 2) refl payload (omega arith)
            (omega arith),
      )
      (ap
        (λ (k : ℕ). ok (
          ok tt,
          record (sent coc payload e) {
            tx = record (sent coc payload e).tx {
              tx_att = le16 n ++ payload ++ drop k e.tx.tx_att;
            };
          },
        ))
        (omega arith))

-- `l2cap_send` on a transmit buffer of its size never panics and has one of four outcomes: no
-- channel is an error, a payload longer than the channel's MTU or the buffer allows is an error, no
-- credits is an error, and all of them change nothing. For a payload of at most the MTU and at most
-- 249 bytes, on a channel with credits, exactly one credit is spent, and the message that is pending
-- is the length of the payload and the payload, from its start, on the local channel id.
pub l2cap_send-outcome :
    (payload : List ℕ) (e : Endpoint)
    → length e.tx.tx_att ≡ 251
    → ((e.coc ≡ none) × (l2cap_send payload e ≡ ok (err not_running, e)))
      ⊎ ((coc : Coc) × (e.coc ≡ some coc)
          × (((coc.mtu < length payload) × (l2cap_send payload e ≡ ok (err invalid_length, e)))
              ⊎ (((249 < length payload) × (l2cap_send payload e ≡ ok (err invalid_length, e)))
                  ⊎ (((length payload ≤ coc.mtu)
                        × (length payload ≤ 249)
                        × (coc.credits ≡ 0)
                        × (l2cap_send payload e ≡ ok (err not_running, e)))
                      ⊎ ((length payload ≤ coc.mtu)
                          × (length payload ≤ 249)
                          × (0 < coc.credits)
                          × (l2cap_send payload e ≡ ok (ok tt, sent coc payload e)))))))
unfolding l2cap_send
l2cap_send-outcome payload e size = elim (Option-cases e.coc) [
  | inl f ↦ inl (f, rw f)
  | inr (coc, f) ↦ inr (
    coc,
    f,
    elim (ltb-cases coc.mtu (length payload)) [
      | inl (long, g) ↦ inl (long, rw (f, g))
      | inr (fits, g) ↦ inr (elim (ltb-cases 249 (length payload)) [
        | inl (long, h) ↦
            inl (long, rw (f, g, lt→ltb (length e.tx.tx_att) (length payload + 2) (omega arith)))
        | inr (few, h) ↦ inr (elim (ltb-cases 0 coc.credits) [
          | inl (rich, k) ↦ inr (
            fits,
            few,
            rich,
            ap (λ c. send_if c payload e) f ∙ (send_on-sent coc payload e size fits few rich),
          )
          | inr (poor, k) ↦
              let broke : coc.credits ≡ 0 = omega arith in
              inl (
                fits,
                few,
                broke,
                rw (
                  f,
                  g,
                  lt_false (length e.tx.tx_att) (length payload + 2) (omega arith),
                  eq→== coc.credits 0 broke,
                ),
              )
        ])
      ])
    ],
  )
]

-- The endpoint after a whole SDU has been taken in.
abbrev pub received : Coc → List ℕ → List ℕ → Endpoint → Endpoint
received d payload junk e = record e {
  coc = some (record d { rx_sdu = payload ++ junk; rx_sdu_len = 0; rx_sdu_total = 0 });
  tx = record (e.tx) {
    tx_att = (le_flow_control_credit ∷ 0 ∷ [] ++ le16 d.peer_cid ++ le16 1) ++ drop 6 e.tx.tx_att;
    tx_att_len = 6;
    tx_cid = 5;
    tx_frag_offset = 0;
    tx_pending = true;
  };
  rx_data = payload ++ drop (length payload) e.rx_data;
  rx_data_len = length payload;
}

pub take_in-whole :
    (d : Coc) (payload : List ℕ)
    → length d.rx_sdu ≡ 256
    → d.rx_sdu_len ≡ 0
    → length payload ≤ 256
    → take_in (le16 (length payload) ++ payload) d
      ≡ ok (
          some (record d {
            rx_sdu = payload ++ drop (length payload) d.rx_sdu;
            rx_sdu_len = length payload;
            rx_sdu_total = length payload;
          }))
unfolding take_in
take_in-whole d payload size idle fits =
    let n = length payload in
    let m : min n (length d.rx_sdu) ≡ n = omega arith in
    let total : from_le16 (n % 256) (n / 2 ^ 8 % 256) ≡ n = omega arith in
    rw (
      idle,
      lt_false (length (le16 n ++ payload)) 2 (omega arith),
      total,
      slice_suffix {E = ⊥} (le16 n) payload 2 (length (le16 n ++ payload)) refl refl,
      m,
      slice_all {E = ⊥} payload,
      copy_to_fill {E = ⊥} [] d.rx_sdu 0 n refl payload (omega arith) (omega arith),
    )

pub complete_sdu-whole :
    (d : Coc) (payload junk : List ℕ) (e : Endpoint)
    → length payload ≤ 244
    → length e.tx.tx_att ≡ 251
    → length e.rx_data ≡ 244
    → complete_sdu
        (record d {
          rx_sdu = payload ++ junk;
          rx_sdu_len = length payload;
          rx_sdu_total = length payload;
        })
        e
      ≡ ok (true, received d payload junk e)
unfolding complete_sdu queue_signaling
complete_sdu-whole d payload junk e fits size room =
    let n = length payload in
    let m : min n 256 ≡ n = omega arith in
    let m' : min n (length e.rx_data) ≡ n = omega arith in
    let m'' : min 6 (length e.tx.tx_att - 4) ≡ 6 = omega arith in
    rw (
      m,
      slice_prefix {E = ⊥} payload junk n refl,
      copy_to_fill {E = ⊥} [] (replicate 256 0) 0 n refl payload (omega arith) (omega arith),
      m'',
      copy_to_fill {E = ⊥} [] e.tx.tx_att 0 6 refl
          (le_flow_control_credit ∷ 0 ∷ [] ++ le16 d.peer_cid ++ le16 1) refl (omega arith),
      m',
      slice_prefix {E = ⊥} payload (drop n (replicate 256 0)) n refl,
      copy_to_fill {E = ⊥} [] e.rx_data 0 n refl payload (omega arith) (omega arith),
    )
