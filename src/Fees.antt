-- ===== src/Fees.antt =====
-- api.go, bundle.go and arseeding.go: what a transaction and a bundle item cost.
pub mod Types
pub mod Price
pub mod Chunks
pub mod Plain
