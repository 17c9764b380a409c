-- ===== src/Grpc.antt =====
-- internal/handler/grpcserver: the calls, what stands before their handlers, and the handlers
pub mod Method
pub mod Messages
pub mod Mapper
pub mod Policy
pub mod Server
pub mod Limit
pub mod Handlers
pub mod Chain
