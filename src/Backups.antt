-- ===== src/Backups.antt =====
-- Pruning the backups made before releases (internal/opsbackup/prune.go).
pub mod Order
pub mod Sorted
pub mod Prune
pub mod Pruned
