-- ===== src/Server.antt =====
-- server/: what the server knows of a Swarm.
pub mod Swarm
pub mod Poller
pub mod Dispatch
pub mod Extensions
