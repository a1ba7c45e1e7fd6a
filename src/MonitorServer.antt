-- ===== src/MonitorServer.antt =====
-- src/monitor-server: the HTTP server over the managers, its requests, services, routes and life cycle.
pub mod Dto
pub mod Services
pub mod Routing
pub mod Handlers
pub mod Controllers
pub mod Expected
pub mod Served
pub mod Answers
pub mod Deleted
pub mod Moves
pub mod Requeued
pub mod Listed
pub mod Server
pub mod Lifecycle
