-- ===== src/Endpoint.antt =====
-- The HTTP endpoints (libs/endpoint).
pub mod Json
pub mod Writer
pub mod Handlers
pub mod Requests
pub mod Answers
pub mod HttpServer
pub mod Executor
pub mod Behind
pub mod Streaming
pub mod Chunks
pub mod Document
pub mod Body
pub mod Counted
mod Examples
