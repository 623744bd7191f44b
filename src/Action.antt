-- ===== src/Action.antt =====
-- action.h, action.c: the servers that are down, and their exchange for a backup.
pub mod Data
pub mod DownList
pub mod Info
pub mod Exchange
pub mod Exchanged
pub mod Check
pub mod Threads
