-- ===== src/Takeover.antt =====
-- server/ctdb_takeover.c: how the recovery master spreads the public addresses over the nodes.
pub mod Address
pub mod Nodes
pub mod Basic
pub mod Lcp2
pub mod Failback
pub mod Placed
pub mod Coverage
pub mod Distance
pub mod Energy
pub mod Assign
pub mod Moves
pub mod Places
pub mod Theorems
pub mod Active
mod Tests
pub mod Balance
pub mod Run
