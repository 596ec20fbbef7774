-- ===== src/Zmtp.antt =====
-- core/src/protocol/zmtp: greetings, frames and commands of the wire protocol.
pub mod Flags
pub mod Command
pub mod Greeting
pub mod Parser
pub mod Codec
