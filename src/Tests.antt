-- ===== src/Tests.antt =====
-- Runs of the model at concrete inputs.
mod HubTests
mod NodeTests
mod ManagerTests
mod ResultTests
mod NotificationTests
mod AgentTests
mod ReleaseTests
mod FileEditTests
mod BackupTests
