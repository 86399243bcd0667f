-- ===== src/AgentBill.antt =====
-- The agent's billing monitor.
pub mod Queries
pub mod Monitor
pub mod UsedUp
