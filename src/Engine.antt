-- ===== src/Engine.antt =====
-- engine/: how the state of a server is asked for, over a raw connection or a hiredis context.
pub mod Packet
pub mod Stats
pub mod Raw
pub mod Memcached
pub mod Info
pub mod Redis
