-- ===== src/Server.antt =====
-- The server: tsunami-udp/server/.
pub mod Datagram
pub mod Transmit
pub mod Options
pub mod Tests
