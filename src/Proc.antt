-- ===== src/Proc.antt =====
-- proc/channel.go: suspending, activating and terminating a channel.
pub mod Channel
pub mod Outcome
pub mod Exclusive
pub mod Verdict
