-- ===== src/GrpcTimeout.antt =====
-- src/middleware/grpc_timeout.rs: the parser of the header, the service and its future, the body.
pub mod Parse
pub mod Body
pub mod Service
pub mod Future
pub mod Deadline
