-- ===== src/Connection.antt =====
-- src/connection_handler.rs and src/connection_info.rs.
pub mod Sleep
pub mod Drive
pub mod Info
pub mod Registry
pub mod Serve
pub mod Graceful
