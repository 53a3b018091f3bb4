-- ===== src/Routines.antt =====
-- The package routines: the constructors of the three routines, what a tick of each does (Ticks), and the
-- goroutines of the partitioning routine (Partitioning).
pub mod Ticks
pub mod Partitioning
