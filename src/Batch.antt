-- ===== src/Batch.antt =====
-- reconciliation_engine/batch.py: the daily command, with what it notifies
pub mod Symbols
pub mod Notifications
pub mod World
pub mod Attempt
pub mod Daily
pub mod Replay
