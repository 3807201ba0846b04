-- ===== src/Store.antt =====
-- store.go: what the service keeps in the key-value store.
pub mod Numbers
pub mod Offsets
pub mod Records
pub mod Laws
pub mod Frame
