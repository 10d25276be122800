-- ===== src/Hub/Results.antt =====
-- The result pool (internal/hub/core/result_pool.go and internal/hub/store/store.go): results that a
-- Node builds page by page, seals, and that its owner reads until they expire.
pub mod Rows
pub mod Store
pub mod Manifest
pub mod Service
pub mod Keys
pub mod Promises
pub mod Pages
pub mod Changes
pub mod Revisions
pub mod Tables
pub mod Sealed
