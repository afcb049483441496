-- ===== src/Hw/Conn/Coc/Handshake.antt =====
-- Opening a channel: the request of one side and the response of the other.
use nrf_ble.Base.{ℕ, List, [], ◌∷◌, ◌++◌, length, drop, true, Option}
use nrf_ble.Ll.Pdu.Fields.{le16}
use nrf_ble.Hw.Conn.Tx.{Tx}
use nrf_ble.Hw.Conn.Coc.{Coc, Endpoint}
use nrf_ble.Hw.Conn.Coc.{new, le_credit_based_connection_rsp, coc_mtu, coc_mps, coc_credits}

-- An endpoint with a signalling message pending.
abbrev pub signalling : List ℕ → Option Coc → Endpoint → Endpoint
signalling msg coc e = record e {
  coc = coc;
  tx = record (e.tx) {
    tx_att = msg ++ drop (length msg) e.tx.tx_att;
    tx_att_len = length msg;
    tx_cid = 5;
    tx_frag_offset = 0;
    tx_pending = true;
  };
}

abbrev response : ℕ → List ℕ
response peer_cid =
    le_credit_based_connection_rsp ∷ 0 ∷ []
    ++ le16 peer_cid
    ++ le16 coc_mtu
    ++ le16 coc_mps
    ++ le16 coc_credits
    ++ le16 0

abbrev accepting : ℕ → Coc
accepting psm = record (new psm) { peer_cid = 0x40; credits = 8 }

abbrev connected : ℕ → Coc
connected psm = record (new psm) { peer_cid = 0x40; peer_credits = 8 }
