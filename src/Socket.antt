-- ===== src/Socket.antt =====
-- libserveez/socket.c: the receive buffer, and how it is split into packets.
pub mod Buffer
pub mod Split
pub mod Boundary
pub mod Packets
pub mod Unibyte
pub mod Fixed
pub mod Request
pub mod Write
