-- ===== src/Network.antt =====
-- server/src/network: the sessions with the clients and the table of them.
pub mod Session
pub mod Registry
pub mod Departure
