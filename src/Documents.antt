-- ===== src/Documents.antt =====
-- apps/api-gateway/src/documents: the documents of the gateway.
pub mod Upload
pub mod Api
pub mod Public
pub mod Service
