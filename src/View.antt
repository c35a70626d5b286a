-- ===== src/View.antt =====
-- apps/react-frontend/src: what the browser makes of the answers and events of the gateway.
pub mod Mapping
pub mod Documents
pub mod Messages
pub mod Chat
pub mod Conversations
pub mod Socket
pub mod ConfigPage
pub mod Client
pub mod Upload
