-- ===== src/Storage.antt =====
-- reconciliation_engine/storage/duckdb.py: the transaction that stores a run, and the manifest of work partitions
pub mod Tables
pub mod Runs
pub mod DataLake
pub mod Manifest
pub mod Journal
