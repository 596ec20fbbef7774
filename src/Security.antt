-- ===== src/Security.antt =====
-- core/src/security: the mechanisms of the handshake and the framers of the data phase.
pub mod Plain
pub mod Framer
pub mod Negotiate
