-- ===== src/Lib.antt =====
-- Verification of nrf-ble, a Bluetooth Low Energy stack for the nRF52.
--
-- The program has a link layer (src/ll: CRC, whitening, PDUs, addresses, channels, privacy, accept
-- list), advertising data (src/gap), the controller on the peripherals (src/hw: scheduler,
-- connections, pairing, bonds, timers, radio), a simulated radio (src/sim.rs) and a host interface
-- (src/hci.rs). A packet is a PDU that `src/ll/pdu.rs` encodes, followed by the CRC of
-- `src/ll/crc.rs` and whitened by `src/ll/whiten.rs`; the simulated radio does what the peripheral
-- does with it.
--
-- Base holds what all modules share. Base.Results is Rust's `Result` with panics as a third outcome:
-- an index, slice or copy out of range is `panic`, and the theorems that name a result exclude it.
-- A `u8`, `u16` or `u32` is a number of ℕ, with `% 2 ^ w` where the code can wrap; `&mut` parameters
-- are passed in and returned.
--
-- The files and what they model:
--   Ll.Crc: src/ll/crc.rs, the loops as recursion over the bits and bytes that are left.
--   Ll.Whiten: src/ll/whiten.rs, the same.
--   Ll.Pdu: src/ll/pdu.rs. Header is `AdvHdr`; Adv is `AdvPdu` with its decoding, Adv.Encode its
--     encoding with the closures as writers; Fields holds `ConnectReqData`, `AuxPtr` and
--     `PeriodicAdvInfo`; Channel is `DataPdu`.
--   Ll.Addr, Ll.Channels, Ll.AcceptList: src/ll/addr.rs, src/ll/channels.rs, src/ll/accept_list.rs.
--   Ll.Privacy: src/ll/priv_.rs, with the block cipher of the crate aes as a parameter; that it
--     yields 16 bytes for 16 bytes is the one hypothesis about it there.
--   Gap.Ad: src/gap/ad.rs, the iterator as a function from its state to its item and state.
--   Sim: src/sim.rs.
--   Hci: the packets and the H4 framer of src/hci.rs; Handler has the struct `Hci`, its commands and
--     what its `tick` forwards to the host.
--   Hw.Radio: src/hw/radio.rs. The fields of the registers that the driver writes are the state; what
--     the peripheral receives is an input, a sequence of the outcomes of the polls, and what it
--     transmits an output.
--   Hw.Io: the radio and the timer together, and the loops that wait on them. The values that the timer
--     is read with are an input too. A loop runs over the inputs, which are its fuel: a wait that has
--     not ended when they are used up is the error `blocked`, which no error of the code is mixed with.
--   Hw.Timers: the interval arithmetic of src/hw/timers.rs and src/hw/ble.rs.
--   Hw.Hop: `next_channel` of src/hw/conn.rs; its loop runs at most 37 turns, which the code counts.
--   Hw.Bonds: the bond store of src/hw/conn.rs and the records of src/hw/bond_flash.rs; Flash has
--     the page of bonds, as the list of its bytes, with the flash controller as a parameter: what its
--     erase command does, and what a store of a word or of a byte does, which may be refused.
--   Hw.Smp: src/hw/smp.rs. The module itself has `c1` and `s1`, State the struct `Smp`, Pairing the
--     messages of legacy pairing, PublicKey those of secure connections. The crates aes, cmac and p256
--     are parameters: that the block cipher keeps the size of a block and can be decrypted, and that
--     both sides of a key exchange compute the same secret, are the hypotheses about them. Calls is a
--     sequence of calls of the methods, Agreement a whole pairing of two devices.
--   Hw.Ccm: the configuration of src/hw/ccm.rs; what the peripheral does with a packet is a parameter.
--   Hw.Conn: src/hw/conn.rs. The fields of the struct `Conn` stand in several records, by the part
--     that uses them. Tx and Rx have the messages sent and received in fragments, and Link the two
--     sides of a connection: a message of n bytes needs at most n fragments, which is the fuel. Coc
--     has the credit based channels, Control the control PDUs and the packets transmitted, with the
--     packets given to the radio as a list; Gatt has the attributes, Att the attribute protocol, and
--     Security the pairing messages. State is the whole struct, from which each part's record is taken
--     and to which it is given back, with `new` and `handle_l2cap`; Event is one connection event, of
--     a master or a slave.
--   Hw.Ble: src/hw/ble.rs. The module itself has the struct, its parameters and its events; Gap the
--     calls that configure, start and stop, Advertise the ticks of an advertiser, Scan those of a
--     scanner with the packets it follows, Link the connection's tick and the calls on it. Events says
--     what the queue of events holds, Calls is a sequence of calls of an application, and Forever has
--     the blocking loops, with the application's callback as a parameter and a number of turns as fuel.
--   Hw.Queue: the event queues of src/hw/ble.rs and src/hci.rs, with the number of slots as a
--     parameter.
--   Tests: the theorems at concrete inputs.
--
-- Not modelled: `run` of src/hw/ccm.rs, the registers of `BtTimer::init`, and interrupts; the
-- accessors of src/hw/ble.rs that only copy a field; the waits on the NVMC in src/hw/bond_flash.rs; the
-- text of errors.
pub mod Base
pub mod Gap
pub mod Hci
pub mod Hw
pub mod Ll
pub mod Sim
pub mod Tests
