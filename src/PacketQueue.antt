-- ===== src/PacketQueue.antt =====
-- common/ctdb_io.c: the queue of packets on a socket.
pub mod Word
pub mod Input
pub mod Frames
pub mod Reading
pub mod Socket
pub mod Loop
pub mod Output
pub mod Sending
pub mod Outbound
pub mod Delivery
mod Tests
