-- ===== src/Bc.antt =====
-- The monitor of the blockchain.
pub mod Range
pub mod Bounds
pub mod Monitor
pub mod Events
pub mod Jobs
