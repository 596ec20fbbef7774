-- ===== src/Tests/Socket.antt =====
-- Sockets of core/src/socket.
mod Requests
mod Others
mod Routers
