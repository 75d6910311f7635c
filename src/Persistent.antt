-- ===== src/Persistent.antt =====
-- server/ctdb_persistent.c and server/ctdb_update_record.c: transactions on persistent databases, and their sequence
-- numbers.
pub mod Commit
pub mod Steps
pub mod Controls
pub mod Invariant
pub mod Acknowledged
pub mod Update
pub mod Stored
pub mod Atomic
pub mod Seqnum
pub mod Recovered
mod Tests
