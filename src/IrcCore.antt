-- ===== src/IrcCore.antt =====
-- irc-core/irc-core.c: comparing and parsing what IRC clients and servers send. A C string is the
-- list of its bytes without the terminating NUL, each byte as `unsigned char` has it. `tolower` of
-- the C library is a parameter.
pub mod Compare
pub mod Regex
pub mod Parse
pub mod Target
pub mod GetTarget
pub mod Receive
