-- ===== src/Bc/Jobs.antt =====
-- bc/jobsmaker.go: from the log of an event to the jobs that it asks for.
pub mod Lookup
pub mod Producers
pub mod Asked
pub mod Rules
pub mod Made
