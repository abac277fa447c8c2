-- ===== src/Dnssec.antt =====
-- The package dnssec: records that deny existence, keys and signatures.
pub mod Nsec
pub mod Chain
pub mod Hash
pub mod Base32
pub mod Crypto
pub mod Zone
