-- ===== src/Callback.antt =====
-- src/middleware/callback: handlers, wrapped bodies, the response future and the service.
pub mod Handler
pub mod Calls
pub mod Body
pub mod Response
pub mod Future
pub mod Service
