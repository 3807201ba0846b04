-- ===== src/Tasks.antt =====
-- taskmanager.go, task.go and the task handlers of api.go and jobs.go: background tasks, their
-- records in memory and the pool of pending tasks in the store.
pub mod Id
pub mod Manager
pub mod Peers
pub mod Counts
pub mod Service
pub mod Api
pub mod Lifecycle
pub mod Restart
pub mod Watcher
