-- ===== src/Tests.antt =====
-- Sample tables, runs of the model on them, and the theorems at concrete inputs.
mod Samples
mod Jobs
mod Channels
mod Payments
mod Billing
mod Sessions
mod Blocks
mod Agents
mod Handlers
mod Offerings
mod Loops
mod Interface
