-- ===== src/Collector.antt =====
-- backend/app/collector/: how the collector reads the servers. The drivers and the queries' answers
-- are arguments.
pub mod Pool
pub mod Frame
pub mod Schedule
pub mod IndexStore
pub mod Snapshot
