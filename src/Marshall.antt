-- ===== src/Marshall.antt =====
-- common/ctdb_util.c: the buffer that carries records between nodes.
pub mod Record
pub mod Buffer
pub mod RoundTrip
mod Tests
