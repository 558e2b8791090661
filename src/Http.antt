-- ===== src/Http.antt =====
-- http-server/http-core.c and http-proto.c: how the HTTP server reads a request. A string is the list
-- of its bytes.
pub mod Uri
pub mod Property
pub mod Request
pub mod Receive
pub mod Range
