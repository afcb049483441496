-- ===== src/Tests/Radio.antt =====
-- The radio, the timer and a connection event at concrete inputs.
use nrf_ble.Base.{ℕ, ◌≡◌, refl, arith, List, [], ◌∷◌, Bool, true}
use nrf_ble.Base.Results.{ok, err, invalid_pdu}
use nrf_ble.Ll.Pdu.Fields.{ConnectReqData}
use nrf_ble.Hw.Conn.Event.{event_slave}
use nrf_ble.Hw.Conn.Event.Receive.{event_slave-data}
use nrf_ble.Hw.Conn.State.{Conn, slave, new}
use nrf_ble.Hw.Io.{Io, pause, blocked}
use nrf_ble.Hw.Io.Wait.{pause-hangs}
use nrf_ble.Hw.Radio.{Radio, Reception, ended, ble_1mbit, plen_8bit, zero_dbm}
use nrf_ble.Hw.Radio.Poll.{data_packet}

abbrev pub radio_with : List Reception → Radio
radio_with receptions = record {
  mode = ble_1mbit;
  plen = plen_8bit;
  s1len = 0;
  lflen = 8;
  maxlen = 255;
  balen = 3;
  crcinit = 0x555555;
  crcpoly = 0x65B;
  base0 = 0;
  prefix0 = 0;
  frequency = 2;
  datawhiteiv = 0x65;
  txpower = zero_dbm;
  rssisample = 0;
  receptions = receptions;
  air = [];
}

abbrev pub io_with : List ℕ → List Reception → Io
io_with readings receptions = record {
  radio = radio_with receptions;
  timer = record { readings = readings; compare = 0; compare_events = [] };
}

abbrev wraps : List ℕ
wraps = 16777210 ∷ 16777215 ∷ 0 ∷ 1 ∷ []

pause-hangs_example : pause 10 (io_with wraps []) ≡ err blocked
pause-hangs_example =
    pause-hangs (io_with wraps []) 10 16777210 (16777215 ∷ 0 ∷ 1 ∷ []) refl
      (omega arith, (omega arith, (omega arith, tt))) (omega arith) (omega arith)

abbrev message : List ℕ
message = 3 ∷ 0 ∷ 4 ∷ 0 ∷ 2 ∷ 23 ∷ 0 ∷ []

abbrev pub link_params : ConnectReqData
link_params = record {
  access_addr = 0x50655535;
  crc_init = 0x123456;
  win_size = 1;
  win_offset = 0;
  interval = 24;
  latency = 0;
  timeout = 10;
  channel_map = 0xFF ∷ 0xFF ∷ 0xFF ∷ 0xFF ∷ 0x1F ∷ [];
  hop = 7;
  sca = 0;
}

abbrev pub slave_link : Conn
slave_link = new link_params 5 0 slave

abbrev pub encrypt : List ℕ → List ℕ → List ℕ
encrypt key xs = xs

abbrev pub block : List ℕ → Bool → List ℕ → Bool × List ℕ
block cfg decrypts xs = (true, xs)

event_slave-data_example :
    (c' : Conn) × (io' : Io) × (event_slave encrypt block slave_link
        (io_with (7 ∷ []) (ended true (data_packet 2 message) 60 ∷ []))
      ≡ ok (err invalid_pdu, c', io'))
unfolding new
event_slave-data_example =
    event_slave-data encrypt block slave_link
      (io_with (7 ∷ []) (ended true (data_packet 2 message) 60 ∷ [])) 2 message refl refl
      (omega arith) (omega arith)
      (record { t = 7; later = []; rssi = 60; rest = []; readings = refl; receptions = refl })
