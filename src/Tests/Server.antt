-- ===== src/Tests/Server.antt =====
-- Control PDUs, encryption and the attribute protocol at concrete states.
use nrf_ble.Base.{
  ℕ, ◌≡◌, refl, ap, arith, List, [], ◌∷◌, length, replicate, Bool, true, false, Option, none,
}
use nrf_ble.Base.Results.{Result, ok}
use nrf_ble.Ll.Pdu.Channel
use nrf_ble.Hw.Conn.Tx.{Tx}
use nrf_ble.Hw.Conn.Att.{Att}
use nrf_ble.Hw.Conn.Att.Discovery.{Continues, read_by_type-Continues}
use nrf_ble.Hw.Conn.Control.{Control, DisconnectReason, handle_ll_control}
use nrf_ble.Hw.Conn.Control.Kept.{IsLimited}
use nrf_ble.Hw.Conn.Control.Limits.{IsWhole, handle_ll_control-IsLimited}

abbrev idle_tx : Tx
idle_tx = record {
  tx_att = replicate 251 0;
  tx_att_len = 0;
  tx_frag_offset = 0;
  tx_pending = false;
  tx_cid = 4;
  tx_pdu_max = 27;
  tx_buf = replicate 64 0;
  sn = true;
  nesn = false;
}

abbrev control : Option (List ℕ) → Control
control pending = record {
  tx = idle_tx;
  master = false;
  stk = replicate 16 1;
  pending_control = pending;
  peer_version_ok = false;
  want_encrypt = false;
  encrypted = false;
  packet_counter = 0;
  ccm = record { cfg = replicate 45 0 };
  rx_pdu_max = 27;
  pending_update = none;
  pending_update_instant = 0;
  air = [];
}

-- An encryption block that fails and leaves the packet.
abbrev broken : List ℕ → Bool → List ℕ → Bool × List ℕ
broken cfg decrypt pdu = (false, pdu)

-- LL_LENGTH_REQ.
abbrev lengths : List ℕ
lengths = 0x14 ∷ 100 ∷ 0 ∷ 0 ∷ 0 ∷ 200 ∷ 0 ∷ 0 ∷ 0 ∷ []

-- Two lists with different heads.
head_of : List ℕ → ℕ
head_of [] = 0
head_of (x ∷ xs) = x

lengths-IsWhole : IsWhole lengths
unfolding head_of
lengths-IsWhole = record {
  lengths = λ rest e. let n = ap length e in omega arith;
  lengths' = λ rest e. let n = ap head_of e in absurd (omega arith);
  update = λ rest e. let n = ap head_of e in absurd (omega arith);
}

handle_ll_control-IsLimited_example :
    (result : Result DisconnectReason (Unit {0})) × (c' : Control) × (handle_ll_control broken
        lengths
        (control none)
      ≡ ok (result, c'))
    × IsLimited c'
handle_ll_control-IsLimited_example =
    handle_ll_control-IsLimited broken (λ cfg decrypt pdu. refl) lengths (control none)
      lengths-IsWhole (refl, omega arith, omega arith, refl, refl, tt)

abbrev ping : List ℕ
ping = 0x13 ∷ replicate 18 0

abbrev server : Att
server = record {
  tx = idle_tx;
  att_mtu = 23;
  pending_request = false;
  gatt_result = replicate 64 0;
  gatt_result_len = 0;
  values = record { nus_cccd = 0; rx_data = replicate 244 0; rx_data_len = 0 };
}

read_by_type-Continues_example : Continues 1 0xFFFF
read_by_type-Continues_example = read_by_type-Continues 1 0xFFFF (omega arith) (omega arith)
