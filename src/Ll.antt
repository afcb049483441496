-- ===== src/Ll.antt =====
-- The link layer: src/ll.
pub mod Crc
pub mod Whiten
pub mod Pdu
pub mod Addr
pub mod Channels
pub mod AcceptList
pub mod Privacy
