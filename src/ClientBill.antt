-- ===== src/ClientBill.antt =====
-- client/bill/monitor.go: the client's billing monitor.
pub mod Queries
pub mod Monitor
pub mod Cheque
pub mod Bounds
pub mod Round
