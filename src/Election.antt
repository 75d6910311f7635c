-- ===== src/Election.antt =====
-- server/ctdb_recoverd.c: the election of the recovery master.
pub mod Message
pub mod Handler
pub mod Order
pub mod Leader
pub mod Settled
mod Tests
