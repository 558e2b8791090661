-- ===== src/Irc.antt =====
-- src/irc-server: the cipher for channel and user names, and the channels that the clients are in.
pub mod Crypt
pub mod Swap
pub mod Channels
