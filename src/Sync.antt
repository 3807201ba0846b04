-- ===== src/Sync.antt =====
-- submit.go and task.go: a transaction is fetched from the network and stored, and the tasks that do so.
pub mod Fetch
pub mod Handlers
pub mod Local
pub mod Again
pub mod Steps
pub mod Frame
