-- ===== src/Resolver.antt =====
-- The package resolver and its clients: framing, failover over the servers, and the checks on a reply.
-- The network is an argument.
pub mod Stream
pub mod Failover
pub mod Auth
pub mod Dot
pub mod Doh
pub mod Memory
