-- ===== src/Clients/Postgres.antt =====
-- clients/database/postgres: the days of the partitions (Dates, Periods), the transactions that create
-- them (Partitions), the rows (Rows) and pages (Pages) of metrics, and the migrations (Migrations).
pub mod Dates
pub mod Periods
pub mod Partitions
pub mod Rows
pub mod Pages
pub mod Migrations
