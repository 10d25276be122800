-- ===== src/Hub/Notifications.antt =====
-- The notifications of finished tasks (internal/hub/store/store.go, cloud_completion_notifications):
-- a row is pending, claimed by a reader for the time of a lease, and acknowledged.
pub mod Rows
pub mod Store
pub mod Enqueue
pub mod History
pub mod Claims
