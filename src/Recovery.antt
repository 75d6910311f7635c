-- ===== src/Recovery.antt =====
-- server/ctdb_recoverd.c, server/ctdb_recover.c and server/ctdb_freeze.c: the recovery of one database.
pub mod Database
pub mod Control
pub mod Pull
pub mod Master
pub mod Merge
pub mod Push
pub mod Agreement
pub mod Outcome
pub mod Success
pub mod Completion
pub mod Seqnum
pub mod Memory
mod Tests
