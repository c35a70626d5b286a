-- ===== src/Rag.antt =====
-- apps/api-gateway/src/rag: the retrieval client of the gateway.
pub mod Helpers
pub mod Errors
pub mod Stream
pub mod Redis
pub mod Search
