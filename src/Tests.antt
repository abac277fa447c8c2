-- ===== src/Tests.antt =====
-- Runs at concrete inputs, and each theorem with hypotheses at an input that meets them.
mod Chains
mod Resolvers
mod Authorities
mod Denied
mod Stable
mod Zones
mod Chained
mod Names
mod Messages
mod Denial
mod Edns
mod Verdicts
mod Walks
mod Steps
mod Hashed
mod Sorting
mod Signed
mod Mnemonics
mod Bitmap
