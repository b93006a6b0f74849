-- ===== src/Ingestion.antt =====
-- reconciliation_engine/ingestion: the client that the adapters of one provider share
pub mod Massive
