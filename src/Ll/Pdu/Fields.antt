-- ===== src/Ll/Pdu/Fields.antt =====
-- The fixed-size fields of src/ll/pdu.rs: `PeriodicAdvInfo`, `AuxPtr` and `ConnectReqData`.
pub mod Laws
pub mod Connect
use nrf_ble.Base.{ℕ, ◌+◌, ◌*◌, ◌/◌, ◌%◌, ◌^◌, bit_and, bit_or, not, Option, none, some}
use nrf_ble.Base.{List, [], ◌∷◌, length, ltb, ◌==◌, if◌then◌else◌}
use nrf_ble.Base.Results.{Result, ok, err, panic, Error, invalid_length, buffer_too_small}
use nrf_ble.Base.Results.{◌>>=◌, index, slice, copy_to, put}

-- `u16::to_le_bytes`, `u16::from_le_bytes` and the same for `u32`.
abbrev pub le16 : ℕ → List ℕ
le16 n = n % 256 ∷ n / 2 ^ 8 % 256 ∷ []

abbrev pub from_le16 : ℕ → ℕ → ℕ
from_le16 a b = a + b * 2 ^ 8

abbrev pub le32 : ℕ → List ℕ
le32 n = n % 256 ∷ n / 2 ^ 8 % 256 ∷ n / 2 ^ 16 % 256 ∷ n / 2 ^ 24 % 256 ∷ []

abbrev pub from_le32 : ℕ → ℕ → ℕ → ℕ → ℕ
from_le32 a b c d = a + b * 2 ^ 8 + c * 2 ^ 16 + d * 2 ^ 24

pub record PeriodicAdvInfo : Type 0 where
  pub adi : ℕ × ℕ
  pub interval : ℕ
  pub adva_type : ℕ

unfoldable pub encode_periodic : PeriodicAdvInfo → List ℕ
encode_periodic p =
    p.adi.0 ∷ p.adi.1 ∷ bit_and p.interval 0xFF % 256 ∷ p.interval / 2 ^ 8 % 256 ∷ p.adva_type ∷ []

-- The outer result is that of the reads, which stay in range.
unfoldable pub decode_periodic : List ℕ → Result ⊥ (Option PeriodicAdvInfo)
decode_periodic bytes = if ltb (length bytes) 5 then ok none else (do
  b0 ← index bytes 0
  b1 ← index bytes 1
  b2 ← index bytes 2
  b3 ← index bytes 3
  b4 ← index bytes 4
  ok (some (record { adi = (b0, b1); interval = from_le16 b2 b3; adva_type = b4 })))

pub record AuxPtr : Type 0 where
  pub channel : ℕ
  pub offset : ℕ
  pub phy : ℕ

unfoldable pub decode_aux : ℕ × ℕ × ℕ → AuxPtr
decode_aux (b0, b1, b2) = record {
  channel = bit_and b0 0x3F;
  offset = bit_or (b0 / 2 ^ 6) (b1 * 2 ^ 2);
  phy = bit_and b2 0x03;
}

unfoldable pub encode_aux : AuxPtr → ℕ × ℕ × ℕ
encode_aux p = (
  bit_or (bit_and p.channel 0x3F) (bit_and p.offset 0x03 * 2 ^ 6),
  bit_and (p.offset / 2 ^ 2) 0xFF,
  bit_and p.phy 0x03,
)

abbrev pub connect_ll_data_len : ℕ
connect_ll_data_len = 22

pub record ConnectReqData : Type 0 where
  pub access_addr : ℕ
  pub crc_init : ℕ
  pub win_size : ℕ
  pub win_offset : ℕ
  pub interval : ℕ
  pub latency : ℕ
  pub timeout : ℕ
  pub channel_map : List ℕ
  pub hop : ℕ
  pub sca : ℕ

unfoldable pub decode_connect : List ℕ → Result Error ConnectReqData
decode_connect ll_data =
    if not (length ll_data == connect_ll_data_len) then err invalid_length else (do
      a0 ← index ll_data 0
      a1 ← index ll_data 1
      a2 ← index ll_data 2
      a3 ← index ll_data 3
      c0 ← index ll_data 4
      c1 ← index ll_data 5
      c2 ← index ll_data 6
      win_size ← index ll_data 7
      w0 ← index ll_data 8
      w1 ← index ll_data 9
      i0 ← index ll_data 10
      i1 ← index ll_data 11
      l0 ← index ll_data 12
      l1 ← index ll_data 13
      t0 ← index ll_data 14
      t1 ← index ll_data 15
      channel_map ← slice ll_data 16 21
      last ← index ll_data 21
      ok (record {
        access_addr = from_le32 a0 a1 a2 a3;
        crc_init = bit_or (bit_or c0 (c1 * 2 ^ 8)) (c2 * 2 ^ 16);
        win_size = win_size;
        win_offset = from_le16 w0 w1;
        interval = from_le16 i0 i1;
        latency = from_le16 l0 l1;
        timeout = from_le16 t0 t1;
        channel_map = channel_map;
        hop = bit_and last 0x1F;
        sca = bit_and (last / 2 ^ 5) 0x07;
      }))

-- The number of bytes written, and the output.
unfoldable pub encode_connect : ConnectReqData → List ℕ → Result Error (ℕ × List ℕ)
encode_connect d out = if ltb (length out) connect_ll_data_len then err buffer_too_small else (do
  out ← copy_to out 0 4 (le32 d.access_addr)
  out ← put out 4 (d.crc_init % 256)
  out ← put out 5 (d.crc_init / 2 ^ 8 % 256)
  out ← put out 6 (d.crc_init / 2 ^ 16 % 256)
  out ← put out 7 d.win_size
  out ← copy_to out 8 10 (le16 d.win_offset)
  out ← copy_to out 10 12 (le16 d.interval)
  out ← copy_to out 12 14 (le16 d.latency)
  out ← copy_to out 14 16 (le16 d.timeout)
  out ← copy_to out 16 21 d.channel_map
  out ← put out 21 (bit_or (bit_and d.hop 0x1F) (bit_and d.sca 0x07 * 2 ^ 5))
  ok (connect_ll_data_len, out))
