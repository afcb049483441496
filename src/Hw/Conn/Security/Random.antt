-- ===== src/Hw/Conn/Security/Random.antt =====
-- What a connection does with the peer's random value.
use nrf_ble.Base.{ℕ, ◌≡◌, if◌then◌else◌, List, [], ◌∷◌, ◌++◌, length, take, drop, true, false}
use nrf_ble.Hw.Smp.State.{Smp}
use nrf_ble.Hw.Smp.Verify.{accepted, refused}
use nrf_ble.Hw.Conn.Security.{Security, framed}

-- The connection with a message queued.
abbrev pub queued : List ℕ → Security → Security
queued out c = record c {
  tx = record (c.tx) {
    tx_att = framed out ++ drop (length (framed out)) c.tx.tx_att;
    tx_att_len = length (framed out);
    tx_cid = 6;
    tx_frag_offset = 0;
    tx_pending = true;
  };
}

-- The message that is pending.
abbrev pub message : Security → List ℕ
message c = take c.tx.tx_att_len c.tx.tx_att

module _ (encrypt : List ℕ → List ℕ → List ℕ)
    (block_size : (key block : List ℕ) → length block ≡ 16 → length (encrypt key block) ≡ 16) where
  -- The connection after a random value that is accepted, and one that is refused.
  abbrev pub Accepts : Security → List ℕ → List ℕ → Security → Type 0
  Accepts c random stk c' =
      (c'.smp ≡ accepted c.smp random stk)
      × (message c' ≡ framed (4 ∷ c.smp.own_random))
      × (c'.want_encrypt ≡ (if c.master then true else c.want_encrypt))
      × (c'.pairing_in_progress ≡ false)

  abbrev pub Refuses : Security → List ℕ → Security → Type 0
  Refuses c random c' =
      (c'.smp ≡ refused c.smp random)
      × (message c' ≡ framed (5 ∷ 6 ∷ []))
      × (c'.want_encrypt ≡ c.want_encrypt)
      × (c'.pairing_in_progress ≡ false)
