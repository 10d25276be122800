-- ===== src/Node/Jobs/Manager.antt =====
-- The job manager (internal/node/jobs.go, type JobManager): which requests start a process, how many
-- run and are kept, and what is forgotten.
pub mod Tables
pub mod Starting
pub mod Stopping
pub mod System
mod Steady
pub mod Slots
mod Requests
pub mod Limits
pub mod Cleanup
mod Shut
pub mod Closed
