-- ===== src/Dmaster.antt =====
-- The dmaster protocol: which node owns a record. common/ctdb_ltdb.c, server/ctdb_ltdb_server.c and
-- server/ctdb_call.c.
pub mod Header
pub mod Node
pub mod Store
pub mod Call
pub mod Request
pub mod Writes
pub mod Ownership
pub mod Handover
pub mod Served
pub mod Branches
pub mod Cluster
pub mod Exclusive
pub mod Locks
pub mod Released
pub mod Reply
pub mod Copies
pub mod Copied
pub mod Transfer
pub mod Reliable
pub mod Data
pub mod Arrival
mod Tests
