-- ===== src/Log.antt =====
-- log.c: the lines that `log_printf` writes, and the ring buffer between it and the log thread.
pub mod Ring
