-- ===== src/Ll/Pdu/Fields/Connect.antt =====
-- The round trip of the CONNECT_REQ parameters.
use nrf_ble.Base.{ℕ, ◌+◌, ◌*◌, ◌/◌, ◌%◌, ◌^◌, ◌≤◌, ◌<◌, bit_and, bit_or}
use nrf_ble.Base.{◌≡◌, refl, ◌∙◌, arith, List, [], ◌∷◌, ◌++◌, length, drop, lt_false}
use nrf_ble.Base.Bits.{bit_and_mask, bit_or_low}
use nrf_ble.Base.Results.{ok}
use nrf_ble.Base.Slices.{copy_to_fill, put_fill}
use nrf_ble.Ll.Pdu.Fields.{ConnectReqData, encode_connect, decode_connect}
use nrf_ble.Ll.Pdu.Fields.{le16, from_le16, le32, from_le32}

-- Each field in the range of its Rust type, and the packed ones in their bits.
pub record IsConnectReq (d : ConnectReqData) : Type 0 where
  pub access_addr : d.access_addr < 2 ^ 32
  pub crc_init : d.crc_init < 2 ^ 24
  pub win_offset : d.win_offset < 2 ^ 16
  pub interval : d.interval < 2 ^ 16
  pub latency : d.latency < 2 ^ 16
  pub timeout : d.timeout < 2 ^ 16
  pub channel_map : length d.channel_map ≡ 5
  pub hop : d.hop < 32
  pub sca : d.sca < 8

abbrev last_byte : ConnectReqData → ℕ
last_byte d = bit_or (bit_and d.hop 0x1F) (bit_and d.sca 0x07 * 2 ^ 5)

abbrev head : ConnectReqData → List ℕ
head d =
    le32 d.access_addr
    ++ ((d.crc_init % 256) ∷ (d.crc_init / 2 ^ 8 % 256) ∷ (d.crc_init / 2 ^ 16 % 256) ∷ [])
    ++ (d.win_size ∷ [])
    ++ le16 d.win_offset
    ++ le16 d.interval
    ++ le16 d.latency
    ++ le16 d.timeout

encode_connect_lem :
    (d : ConnectReqData) (out : List ℕ)
    → length d.channel_map ≡ 5
    → 22 ≤ length out
    → encode_connect d out ≡ ok (22, head d ++ d.channel_map ++ (last_byte d ∷ []) ++ drop 22 out)
unfolding encode_connect
encode_connect_lem d out hm room =
    let aa = le32 d.access_addr in
    let c0 = aa ++ (d.crc_init % 256) ∷ [] in
    let c1 = c0 ++ (d.crc_init / 2 ^ 8 % 256) ∷ [] in
    let c2 = c1 ++ (d.crc_init / 2 ^ 16 % 256) ∷ [] in
    let w = c2 ++ d.win_size ∷ [] in
    let wo = w ++ le16 d.win_offset in
    let i = wo ++ le16 d.interval in
    let l = i ++ le16 d.latency in
    rw (
      lt_false (length out) 22 room,
      copy_to_fill [] out 0 4 refl aa refl (omega arith),
      put_fill aa out 4 5 refl (d.crc_init % 256) refl (omega arith),
      put_fill c0 out 5 6 refl (d.crc_init / 2 ^ 8 % 256) refl (omega arith),
      put_fill c1 out 6 7 refl (d.crc_init / 2 ^ 16 % 256) refl (omega arith),
      put_fill c2 out 7 8 refl d.win_size refl (omega arith),
      copy_to_fill w out 8 10 refl (le16 d.win_offset) refl (omega arith),
      copy_to_fill wo out 10 12 refl (le16 d.interval) refl (omega arith),
      copy_to_fill i out 12 14 refl (le16 d.latency) refl (omega arith),
      copy_to_fill l out 14 16 refl (le16 d.timeout) refl (omega arith),
      copy_to_fill (head d) out 16 21 refl d.channel_map (omega arith) (omega arith),
      put_fill (head d ++ d.channel_map) out 21 22 (omega arith) (last_byte d) refl (omega arith),
    )

split_three :
    (c : ℕ)
    → c < 2 ^ 24
    → bit_or (bit_or (c % 256) (c / 2 ^ 8 % 256 * 2 ^ 8)) (c / 2 ^ 16 % 256 * 2 ^ 16) ≡ c
split_three c h =
    let low = bit_or_low 8 (c / 2 ^ 8 % 256) (c % 256) (omega arith) in
    let sum = c / 2 ^ 8 % 256 * 2 ^ 8 + c % 256 in
    rw low (bit_or_low 16 (c / 2 ^ 16 % 256) sum (omega arith) ∙ omega arith)

last_byte-sum : (d : ConnectReqData) → d.hop < 32 → d.sca < 8 → last_byte d ≡ d.sca * 32 + d.hop
last_byte-sum d hh hs =
    let hop : bit_and d.hop 0x1F ≡ d.hop = bit_and_mask 5 d.hop ∙ omega arith in
    let sca : bit_and d.sca 0x07 ≡ d.sca = bit_and_mask 3 d.sca ∙ omega arith in
    rw (hop, sca) (bit_or_low 5 d.sca d.hop hh)

decode_connect_lem :
    (d : ConnectReqData) (m : List ℕ)
    → IsConnectReq d
    → length m ≡ 5
    → decode_connect (head d ++ m ++ (last_byte d ∷ [])) ≡ ok (record d { channel_map = m })
unfolding decode_connect
decode_connect_lem d (m0 ∷ m1 ∷ m2 ∷ m3 ∷ m4 ∷ []) v hm =
    let last = last_byte-sum d v.hop v.sca in
    let aa : from_le32 (d.access_addr % 256) (d.access_addr / 2 ^ 8 % 256)
          (d.access_addr / 2 ^ 16 % 256) (d.access_addr / 2 ^ 24 % 256)
        ≡ d.access_addr =
      omega arith in
    let crc = split_three d.crc_init v.crc_init in
    let wo : from_le16 (d.win_offset % 256) (d.win_offset / 2 ^ 8 % 256) ≡ d.win_offset =
      omega arith in
    let iv : from_le16 (d.interval % 256) (d.interval / 2 ^ 8 % 256) ≡ d.interval = omega arith in
    let lt : from_le16 (d.latency % 256) (d.latency / 2 ^ 8 % 256) ≡ d.latency = omega arith in
    let to : from_le16 (d.timeout % 256) (d.timeout / 2 ^ 8 % 256) ≡ d.timeout = omega arith in
    let hop : bit_and (last_byte d) 0x1F ≡ d.hop = rw last (bit_and_mask 5 _ ∙ omega arith) in
    let sca : bit_and (last_byte d / 2 ^ 5) 0x07 ≡ d.sca =
      rw last (bit_and_mask 3 _ ∙ omega arith) in
    λ i. ok (record {
      access_addr = aa i;
      crc_init = crc i;
      win_size = d.win_size;
      win_offset = wo i;
      interval = iv i;
      latency = lt i;
      timeout = to i;
      channel_map = m0 ∷ m1 ∷ m2 ∷ m3 ∷ m4 ∷ [];
      hop = hop i;
      sca = sca i;
    })
decode_connect_lem d [] v hm = absurd (omega arith)
decode_connect_lem d (m0 ∷ []) v hm = absurd (omega arith)
decode_connect_lem d (m0 ∷ m1 ∷ []) v hm = absurd (omega arith)
decode_connect_lem d (m0 ∷ m1 ∷ m2 ∷ []) v hm = absurd (omega arith)
decode_connect_lem d (m0 ∷ m1 ∷ m2 ∷ m3 ∷ []) v hm = absurd (omega arith)
decode_connect_lem d (m0 ∷ m1 ∷ m2 ∷ m3 ∷ m4 ∷ m5 ∷ m) v hm = absurd (omega arith)

-- Connection parameters in range are encoded into the first 22 bytes of any output that has as
-- many, the bytes behind are kept, and decoding the 22 bytes gives the parameters back.
pub decode-encode_connect :
    (d : ConnectReqData) (out : List ℕ)
    → IsConnectReq d
    → 22 ≤ length out
    → (ll_data : List ℕ) × (encode_connect d out ≡ ok (22, ll_data ++ drop 22 out))
      × (decode_connect ll_data ≡ ok d)
decode-encode_connect d out v room = (
  head d ++ d.channel_map ++ (last_byte d ∷ []),
  encode_connect_lem d out v.channel_map room,
  decode_connect_lem d d.channel_map v v.channel_map,
)
