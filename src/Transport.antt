-- ===== src/Transport.antt =====
-- reconciliation_engine/realtime/network_transport.py
pub mod Sequence
pub mod Events
pub mod Monitor
pub mod Framing
pub mod Tcp
