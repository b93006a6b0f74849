-- ===== src/Scaling.antt =====
-- reconciliation_engine/scaling: one partition of an ingestion, with its two archives
pub mod Execution
pub mod Partitions
