-- ===== src/Tests.antt =====
-- The theorems applied to concrete policies, requests, streams and answers.
mod Samples
mod Core
mod Grpc
mod Streams
mod Connect
mod Endpoint
mod Verifiers
mod Reach
