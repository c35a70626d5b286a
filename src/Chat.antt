-- ===== src/Chat.antt =====
-- apps/api-gateway/src/chat: the events for the UI, the socket's handlers and the chat history.
pub mod Status
pub mod Gateway
pub mod Postgres
pub mod History
pub mod Reading
pub mod DeepStatus
