-- ===== src/Route.antt =====
-- src/route: the HTTP server.
pub mod Subject
pub mod Request
pub mod Middleware
pub mod Semaphore
pub mod Limit
pub mod Router
pub mod Handlers
pub mod Websocket
