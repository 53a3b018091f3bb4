-- ===== src/Config.antt =====
-- Package config: reading the environment (config/config.go), its validation (config/validate.go),
-- and shard intervals (config/intervalmap.go).
pub mod Intervals
pub mod Environment
pub mod HostMaps
pub mod Shards
pub mod Variables
pub mod Reading
pub mod Validation
