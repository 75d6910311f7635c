-- ===== src/Logging.antt =====
-- common/ctdb_logging.c: the ring buffer of log messages.
pub mod Buffer
mod Ring
pub mod Collected
mod Tests
