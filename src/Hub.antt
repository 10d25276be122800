-- ===== src/Hub.antt =====
-- The Hub: the backend and control plane (internal/hub).
pub mod Connection
pub mod Registry
pub mod RegistrationGuard
pub mod Results
pub mod Notifications
