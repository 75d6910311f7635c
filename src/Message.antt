-- ===== src/Message.antt =====
-- common/ctdb_message.c: the handlers of messages, and the index by which they are found.
pub mod Index
pub mod Handlers
pub mod Table
pub mod Indexed
pub mod Lists
pub mod Agreement
pub mod Refinement
mod Tests
