-- ===== src/Freeze.antt =====
-- server/ctdb_freeze.c: freezing the databases, and the transaction on all of them.
pub mod State
pub mod Transaction
pub mod Steps
pub mod Invariant
pub mod Guarded
pub mod Answered
pub mod Abandoned
mod Tests
