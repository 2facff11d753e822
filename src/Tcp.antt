-- ===== src/Tcp.antt =====
-- tcp/: messages put together from captured packets.
pub mod Message
pub mod Segment
pub mod Decode
pub mod Store
pub mod Pool
pub mod Examples
