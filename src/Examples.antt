-- ===== src/Examples.antt =====
-- The theorems at concrete inputs.
mod Tables
mod Arrays
mod Texts
mod Wire
mod Raw
mod Receive
mod Send
mod Socks
mod Access
mod Ports
mod Web
mod Rooms
mod Messages
mod Files
