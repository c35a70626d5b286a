-- ===== src/Tests.antt =====
-- Runs of the definitions at concrete inputs, and the theorems applied to them.
mod Gateway
mod Rag
mod Shared
mod Search
mod History
mod View
mod Labels
mod Upload
mod Config
mod Page
mod Reading
mod Chatting
mod Documents
mod Client
