-- ===== src/Hw/Conn/Att/Client.antt =====
-- A request of our own, and the response to it.
use nrf_ble.Base.{ℕ, List, ◌++◌, length, drop, false}
use nrf_ble.Base.Results.{◌>>=◌}
use nrf_ble.Hw.Conn.Att.{Att}

-- The client after a response.
abbrev kept : List ℕ → ℕ → Att → Att
kept rsp mtu a = record a {
  att_mtu = mtu;
  pending_request = false;
  gatt_result = rsp ++ drop (length rsp) a.gatt_result;
  gatt_result_len = length rsp;
}
