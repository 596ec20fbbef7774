-- ===== src/Socket.antt =====
-- core/src/socket: the socket types, and what several of them share.
pub mod Peers
pub mod Frames
pub mod Req
pub mod Rep
pub mod Options
pub mod Push
pub mod Publish
pub mod Pull
pub mod Sub
pub mod Core
pub mod Router
pub mod Dealer
