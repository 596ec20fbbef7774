-- ===== src/Sessionx.antt =====
-- core/src/sessionx: the protocol handler of a session.
pub mod Heartbeat
pub mod V2
pub mod Handshake
