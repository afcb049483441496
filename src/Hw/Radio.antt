-- ===== src/Hw/Radio.antt =====
-- The radio driver of src/hw/radio.rs. The registers of the crate nrf52840-pac are the fields that the
-- driver writes; a bit field with named values has a data type or is left out where the driver writes
-- it only once. What the peripheral receives is an input, a sequence of the outcomes of the polls; what
-- it transmits is an output. The waits for the ramp-up and for the end of a transmission end by
-- themselves and have no part in the state.
pub mod Poll
use nrf_ble.Base.{
  ℕ, ◌+◌, ◌-◌, ◌/◌, ◌%◌, ◌^◌, bit_and, bit_or, List, [], ◌∷◌, length, Bool, if◌then◌else◌, Option,
  none, some,
}
use nrf_ble.Base.Results.{Result, ok, err, Error, crc_mismatch, ◌>>=◌, index, copy_to}
use nrf_ble.Ll.Channels.{adv_access_address, access_address_to_base_prefix, channel_frequency}

-- `ble_coded_s8` and `ble_coded_s2` are missing on the nRF52832.
pub data Phy : Type 0 where
  ble_1mbit ble_2mbit ble_coded_s8 ble_coded_s2 : Phy

-- The variants of the nRF52840.
pub data TxPower : Type 0 where
  neg40_dbm neg20_dbm neg16_dbm neg12_dbm neg8_dbm neg4_dbm zero_dbm : TxPower
  pos3_dbm pos4_dbm pos2_dbm pos5_dbm pos6_dbm pos7_dbm pos8_dbm : TxPower

-- The length of PCNF0.PLEN.
pub data Preamble : Type 0 where
  plen_8bit plen_16bit plen_long_range : Preamble

-- What a poll finds: no packet yet, or the end of one. Its bytes are in memory also when the CRC is
-- wrong.
pub data Reception : Type 0 where
  waiting : Reception
  ended : (crc_ok : Bool) (bytes : List ℕ) (rssi : ℕ) → Reception

-- A packet on air: its frequency above 2400 MHz, the whitening value, and the bytes.
pub record Sent : Type 0 where
  pub frequency : ℕ
  pub datawhiteiv : ℕ
  pub packet : List ℕ

pub record Radio : Type 0 where
  pub mode : Phy
  pub plen : Preamble
  pub s1len : ℕ
  pub lflen : ℕ
  pub maxlen : ℕ
  pub balen : ℕ
  pub crcinit : ℕ
  pub crcpoly : ℕ
  pub base0 : ℕ
  pub prefix0 : ℕ
  pub frequency : ℕ
  pub datawhiteiv : ℕ
  pub txpower : TxPower
  pub rssisample : ℕ
  pub receptions : List Reception
  pub air : List Sent

unfoldable pub set_phy : Phy → Radio → Radio
set_phy ble_1mbit r = record r { mode = ble_1mbit; s1len = 0; plen = plen_8bit }
set_phy ble_2mbit r = record r { mode = ble_2mbit; s1len = 8; plen = plen_16bit }
set_phy ble_coded_s8 r = record r { mode = ble_coded_s8; s1len = 8; plen = plen_long_range }
set_phy ble_coded_s2 r = record r { mode = ble_coded_s2; s1len = 8; plen = plen_long_range }

unfoldable pub set_access_address : ℕ → Radio → Radio
set_access_address aa r =
    let (base, prefix) = access_address_to_base_prefix aa in
    record r { base0 = base; prefix0 = prefix }

-- The channel's registers, or the error, which leaves them.
unfoldable pub set_channel : ℕ → Radio → Result Error Radio
set_channel channel r = do
  frequency ← channel_frequency channel
  let freq = frequency - 2400
  ok (record r { frequency = freq % 2 ^ 8; datawhiteiv = bit_or 0x40 (bit_and channel 0x3F) })

-- `set_channel(channel).ok()`
abbrev pub tuned : Result Error Radio → Radio → Radio
tuned (ok r') r = r'
tuned _ r = r

abbrev pub tune : ℕ → Radio → Radio
tune channel r = tuned (set_channel channel r) r

unfoldable pub set_crc_init : ℕ → Radio → Radio
set_crc_init init r = record r { crcinit = init }

unfoldable pub set_tx_power : TxPower → Radio → Radio
set_tx_power power r = record r { txpower = power }

unfoldable pub init : Radio → Radio
init r = tune 37 (
    set_tx_power zero_dbm (
      set_access_address adv_access_address (record r {
        mode = ble_1mbit;
        lflen = 8;
        s1len = 0;
        plen = plen_8bit;
        maxlen = 255;
        balen = 3;
        crcinit = 0x00555555;
        crcpoly = 0x0000065B;
      })))

unfoldable pub transmit : List ℕ → Radio → Radio
transmit pdu r =
    let sent : Sent = record {
      frequency = r.frequency;
      datawhiteiv = r.datawhiteiv;
      packet = pdu;
    } in
    record r { air = sent ∷ r.air }

-- The length that `receive_poll` reads from the second byte in memory.
unfoldable pub pdu_len : ℕ → ℕ
pdu_len byte = 2 + bit_and (byte / 2) 0x3F

-- One poll, with the outcome that the peripheral has for it. The peripheral writes the bytes to the
-- front of the buffer; that they are more than it holds is a panic here, and memory behind the buffer
-- is overwritten in the program.
unfoldable pub receive_poll :
    {E : Type 0} → Reception → List ℕ → Radio → Result E (Result Error (Option ℕ) × List ℕ × Radio)
receive_poll waiting buf r = ok (ok none, buf, r)
receive_poll (ended crc_ok bytes rssi) buf r = do
  buf ← copy_to buf 0 (length bytes) bytes
  b ← index buf 1
  ok (
    if crc_ok then ok (some (pdu_len b)) else err crc_mismatch,
    buf,
    record r { rssisample = rssi },
  )
