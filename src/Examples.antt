-- ===== src/Examples.antt =====
-- Small concrete states, on which the theorems are applied.
mod Data
mod Queues
mod Rings
mod Actions
mod Threads
mod Exchanges
mod Gathering
mod Repairs
mod Packets
mod Engines
mod Configs
mod Starting
mod Monitoring
