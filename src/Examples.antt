-- ===== src/Examples.antt =====
-- examples: the protocols of the example programs, which run on the buffer of a connection.
pub mod Chat
pub mod Hub
pub mod Socks
pub mod Idle
