-- ===== src/Releases.antt =====
-- Releases (internal/releaseinfo): the signed manifest of a release and the order of versions.
pub mod Manifest
pub mod Version
pub mod Signing
pub mod Order
