-- ===== src/Wire.antt =====
-- The package wire: DNS wire format.
pub mod Name
pub mod Decompress
pub mod Builder
pub mod Message
pub mod Query
pub mod TypeBitmap
pub mod Edns
