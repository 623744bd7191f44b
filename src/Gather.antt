-- ===== src/Gather.antt =====
-- gather.h, gather.c: the analyzer's view of the target servers.
pub mod Data
pub mod Meta
pub mod State
