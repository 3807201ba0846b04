-- ===== src/Tests.antt =====
-- The theorems at concrete inputs, on the store of Rawdb/Memory.antt.
mod Storage
mod Offsets
mod Tasks
mod Bundles
mod Peers
mod Orders
mod Jobs
mod Sync
mod Manifest
mod Http
mod Submit
mod Accounts
mod Files
mod Lists
