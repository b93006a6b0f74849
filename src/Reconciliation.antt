-- ===== src/Reconciliation.antt =====
-- reconciliation_engine/reconciliation: the provider comparisons and the exceptions that they open
pub mod Validation
pub mod Equities
pub mod Exceptions
pub mod Options
pub mod Futures
pub mod Tests
