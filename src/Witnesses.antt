-- ===== src/Witnesses.antt =====
-- The theorems applied to concrete inputs (Routing, Caching, Batches, Serving, Settings, Redis,
-- Partitions, Migrations, Operations), which share sample values (Samples).
pub mod Samples
pub mod Plain
pub mod Routing
pub mod Caching
pub mod Batches
pub mod Serving
pub mod Settings
pub mod Redis
pub mod Partitions
pub mod Migrations
pub mod Operations
