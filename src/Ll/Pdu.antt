-- ===== src/Ll/Pdu.antt =====
-- Advertising and data channel PDUs: src/ll/pdu.rs. A `[u8; 2]` is a pair and a longer array a list.
pub mod Header
pub mod Fields
pub mod Adv
pub mod Channel
