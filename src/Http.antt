-- ===== src/Http.antt =====
-- middleware.go: the requests for the host of a manifest or of a name.
pub mod Paths
pub mod Middleware
pub mod Named
pub mod Redirect
