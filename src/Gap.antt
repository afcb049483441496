-- ===== src/Gap.antt =====
-- The advertising data format: src/gap/ad.rs.
pub mod Ad
