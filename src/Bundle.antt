-- ===== src/Bundle.antt =====
-- The bundle items: store.go, bundle.go and the assembly of a bundle in jobs.go.
pub mod Types
pub mod Items
pub mod ItemLaws
pub mod Removed
pub mod Arrange
pub mod OnChain
pub mod Parse
pub mod Kept
pub mod Parsed
pub mod Plain
