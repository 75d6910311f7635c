-- ===== src/Lock.antt =====
-- server/ctdb_lock.c: locks on records and databases, which child processes wait for.
pub mod Context
pub mod Schedule
pub mod Steps
pub mod Scan
pub mod Orderly
pub mod Busy
pub mod Dangling
pub mod Databases
pub mod Order
pub mod Marking
pub mod Helper
mod Tests
