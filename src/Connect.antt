-- ===== src/Connect.antt =====
-- connectrpc/: the interceptors for ConnectRPC.
pub mod Errors
pub mod Interceptor
pub mod Agreement
pub mod Stream
