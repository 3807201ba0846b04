-- ===== src/Manifest.antt =====
-- manifest.go: paths are resolved through a manifest.
pub mod Resolve
pub mod Items
pub mod Slashes
pub mod Saved
pub mod Sync
pub mod Batches
