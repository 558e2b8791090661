-- ===== src/Nut.antt =====
-- nut-server/nut-core.c: the binary packets of the gnutella protocol.
pub mod Bytes
pub mod Packets
pub mod RoundTrip
pub mod Wire
