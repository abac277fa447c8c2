-- ===== src/Zone.antt =====
-- The package zone: master files and resource records.
pub mod Canonical
pub mod Store
