-- ===== src/Chat/Gateway.antt =====
-- apps/api-gateway/src/chat/chat.gateway.ts and chat-deep-job.ts: the handlers of the chat socket.
pub mod World
pub mod Query
pub mod Resume
pub mod Interrupt
pub mod Tracked
pub mod Shrinks
pub mod Solo
pub mod Once
pub mod Orphan
pub mod Events
