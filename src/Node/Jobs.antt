-- ===== src/Node/Jobs.antt =====
-- Jobs (internal/node/jobs.go): a process that was started for a caller, its bounded event log, and
-- the manager that admits, watches and forgets jobs.
pub mod Job
pub mod Events
pub mod Watch
pub mod Finish
pub mod Manager
pub mod Spec
