-- ===== src/Storage.antt =====
-- crates/storage-sqlite: the repository over SQLite. Each SQL statement of the source is a function on
-- the tables.
pub mod Tables
pub mod SortKey
pub mod Apply
pub mod Append
pub mod Timeline
pub mod Match
pub mod Migrate
