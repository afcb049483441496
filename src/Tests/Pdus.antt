-- ===== src/Tests/Pdus.antt =====
-- Link layer PDUs.
use nrf_ble.Base.{
  ℕ, ◌≡◌, refl, arith, List, [], ◌∷◌, ◌++◌, true, false, length, drop, replicate, ltb,
  if◌then◌else◌,
}
use nrf_ble.Base.Results.{ok, err, buffer_too_small}
use nrf_ble.Ll.Pdu.Fields.{ConnectReqData, decode_connect, encode_connect}
use nrf_ble.Ll.Pdu.Fields.Connect.{IsConnectReq, decode-encode_connect}
use nrf_ble.Ll.Pdu.Adv
use nrf_ble.Ll.Pdu.Adv.{AdvPdu, adv_ind, adv_ext_ind, aux_adv_ext_ind, decode_payload}
use nrf_ble.Ll.Pdu.Adv.Encode.{encode_typed}
use nrf_ble.Ll.Pdu.Adv.Layout.{layout, written}
use nrf_ble.Ll.Pdu.Adv.Laws.{header, encode_typed_lem}
use nrf_ble.Ll.Pdu.Adv.RoundTrip.{decode-encode_typed}

abbrev request : ConnectReqData
request = record {
  access_addr = 0x1234ABCD;
  crc_init = 0x654321;
  win_size = 1;
  win_offset = 2;
  interval = 24;
  latency = 0;
  timeout = 100;
  channel_map = 0xFF ∷ 0xFF ∷ 0xFF ∷ 0xFF ∷ 0x1F ∷ [];
  hop = 13;
  sca = 5;
}

request-IsConnectReq : IsConnectReq request
request-IsConnectReq = record {
  access_addr = omega arith;
  crc_init = omega arith;
  win_offset = omega arith;
  interval = omega arith;
  latency = omega arith;
  timeout = omega arith;
  channel_map = refl;
  hop = omega arith;
  sca = omega arith;
}

decode-encode_connect_example :
    (ll_data : List ℕ) × (encode_connect request (replicate 24 0)
      ≡ ok (22, ll_data ++ drop 22 (replicate 24 0)))
    × (decode_connect ll_data ≡ ok request)
decode-encode_connect_example =
    decode-encode_connect request (replicate 24 0) request-IsConnectReq (omega arith)

abbrev address : List ℕ
address = 1 ∷ 2 ∷ 3 ∷ 4 ∷ 5 ∷ 6 ∷ []

abbrev connectable : AdvPdu
connectable = adv_ind address (2 ∷ 1 ∷ 6 ∷ [])

abbrev output : List ℕ
output = replicate 20 0

encode_typed_lem_example : encode_typed connectable output true false ≡ (
    if ltb (length output) 2
    then err buffer_too_small
    else written output (header connectable true false) (layout connectable))
encode_typed_lem_example = encode_typed_lem connectable output true false refl

decode-encode_typed_example :
    (sent : List ℕ) × (encode_typed connectable output true false
      ≡ ok (length sent, sent ++ drop (length sent) output))
    × (Adv.decode sent ≡ ok connectable)
decode-encode_typed_example =
    decode-encode_typed connectable output true false refl tt (omega arith) (omega arith)
