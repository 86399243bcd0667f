-- ===== src/Pay.antt =====
-- pay: the agent's server that takes payments.
pub mod Server
pub mod Client
pub mod Monotone
pub mod Outcome
