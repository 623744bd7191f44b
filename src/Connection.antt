-- ===== src/Connection.antt =====
-- connection.h, connection.c: the pool of servers, its queues and the callbacks of the connections.
pub mod Data
pub mod Queue
pub mod Pool
pub mod Create
pub mod Callbacks
