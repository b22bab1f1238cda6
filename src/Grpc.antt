-- ===== src/Grpc.antt =====
-- The package grpc: the interceptors for grpc-go.
pub mod Errors
pub mod Lookup
pub mod Config
pub mod Unary
pub mod Stream
