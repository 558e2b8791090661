-- ===== src/Raw.antt =====
-- libserveez/raw-socket.c: IP headers.
pub mod Header
pub mod Checksum
