-- ===== src/Endpoint.antt =====
-- endpoint/: what the interceptors ask.
pub mod Verifier
pub mod Static
pub mod Http
pub mod Hosts
pub mod Json
pub mod Envelope
pub mod Headers
pub mod Failures
pub mod Reach
pub mod Backend
pub mod O3co
pub mod Asking
pub mod Opa
pub mod Cedar
pub mod Options
