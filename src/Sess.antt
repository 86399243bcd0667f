-- ===== src/Sess.antt =====
-- The session server, which a product's adapter calls.
pub mod Access
pub mod Session
pub mod Refused
pub mod Units
pub mod Effects
pub mod Started
pub mod Stopped
pub mod Atomic
