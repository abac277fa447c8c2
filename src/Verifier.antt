-- ===== src/Verifier.antt =====
-- verifier/: the walk of the chain of trust for one name.
pub mod Verdict
pub mod Names
pub mod Denial
pub mod Codes
pub mod Walk
pub mod Steps
pub mod Chain
