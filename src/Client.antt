-- ===== src/Client.antt =====
-- The client: tsunami-udp/client.
pub mod Transfer
pub mod Requests
pub mod Receive
pub mod Disk
pub mod File
pub mod Finish
