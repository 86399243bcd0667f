-- ===== src/Loop.antt =====
-- proc/looper: the jobs that pop up an agent's offerings by themselves.
pub mod PopUp
pub mod Paid
