-- ===== src/Server.antt =====
-- internal/server/handler.go: the HTTP handlers, which tie the other components together.
pub mod Manage
pub mod Exclusive
pub mod Forwards
pub mod Twice
pub mod Router
pub mod Serving
pub mod Create
pub mod Ports
pub mod Lifecycle
pub mod Answered
pub mod Conserved
pub mod Routes
pub mod Auth
pub mod Requested
