-- ===== src/Shared.antt =====
-- libs/shared: the value types and the functions that the services and the UI share.
pub mod Number
pub mod Json
pub mod Types
pub mod Records
pub mod Contracts
pub mod Title
pub mod Ocr
pub mod Labels
