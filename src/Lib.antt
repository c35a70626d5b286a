-- ===== src/Lib.antt =====
-- A verification library for ragpolyglot-demo: the API gateway (TypeScript, apps/api-gateway),
-- the contracts that it shares with the frontend (libs/shared), and the list of documents, the chat
-- and the socket in the frontend (apps/react-frontend).
--
-- The program. A browser sends `chat:query` over a socket; the gateway streams the answer from the
-- rag-worker, saves the turn and emits `chat:complete` to the conversation's room. `chat:interrupt`
-- stops it. Events of a broker about documents are parsed and passed on to the UI. The gateway also
-- serves documents, for which it asks the document service, and the settings in a `.env` file.
--
-- Which file models which part:
--   * Base: strings (lists of UTF-16 code units), lists, the order of strings, `Set` and `Map`.
--   * Shared/Types, Shared/Contracts, Shared/Records, Shared/Title, Shared/Ocr, Shared/Labels:
--     types/types.ts, types/contracts.ts and interfaces/interfaces.ts of libs/shared/src/lib.
--     Shared/Json and Shared/Number are the values of JavaScript that the program passes around.
--   * Rag/Helpers: apps/api-gateway/src/rag/rag.helpers.ts and `ragCacheKey` of core/config.ts.
--   * Rag/Stream, Rag/Errors: `readChatStream`, `consumeNdjson`, `toUpstreamError` and
--     `fromUpstreamMessage` of apps/api-gateway/src/rag/rag.service.ts.
--   * Rag/Redis, Rag/Search: apps/api-gateway/src/core/redis.service.ts and `streamSearch` of
--     rag.service.ts with its cache.
--   * Chat/Postgres, Chat/History: apps/api-gateway/src/core/postgres.service.ts over the tables of
--     assets/sql, and the turns of apps/api-gateway/src/chat/conversation.service.ts. A connection
--     is the list of what becomes of its next commands, so that it can fail anywhere.
--   * Chat/Reading: listing, reading and deleting conversations, of the same files.
--   * Chat/DeepStatus: `getDeepJob`, and the status that conversation.controller.ts makes of it.
--   * Chat/Status: apps/api-gateway/src/chat/chat.status.ts.
--   * Chat/Gateway: apps/api-gateway/src/chat/chat.gateway.ts and chat-deep-job.ts. World is the
--     state that handlers share, Query is `handleChatQuery` up to its first await, Resume what it
--     does behind each await, and Interrupt is `handleInterrupt`. A handler runs without
--     interruption between two awaits; a suspended handler is a task with a phase, and a reply
--     resumes it, so that any interleaving is a list of moves. Solo is one query with the
--     interrupts of its conversation; Tracked has any number of queries.
--     Events is the consumer of the status queue and the two handlers that join a room.
--   * View: apps/react-frontend/src/lib/documents.ts (Mapping) and context/DocumentsProvider.tsx
--     (Documents), the list of documents in the browser. A handler is a function of the list; an
--     answer of the server is an argument. Documents/Requests is the provider's operations.
--     View/Messages is lib/chatMessages.ts, the answer that is being written. View/Chat is
--     components/AgentChat.tsx, its state and handlers, View/Conversations lib/conversations.ts,
--     View/Socket hooks/useWebSocket.ts, View/Client the reading of responses in api/client.ts,
--     View/Upload lib/uploadFile.ts, and View/ConfigPage pages/ConfigPage.tsx with
--     lib/runtime-config.ts.
--   * Documents/Upload: apps/api-gateway/src/documents/document-upload.ts. Documents/Public and
--     Documents/Service are document.service.ts: its helpers, and its handlers over what stands in
--     Documents/Api, the requests that were sent, the directory of uploads and Redis.
--   * Config/EnvFile and Config/Host: apps/api-gateway/src/config/env-file.ts, the text of a `.env`
--     file and where it is found. Config/Settings is config-settings.ts, and Config/Runtime
--     runtime-config.service.ts over a function from paths to contents.
--   * Core/Exceptions: apps/api-gateway/src/core/filters/all-exceptions.filter.ts.
-- Every function recurses on a list or a text, but for the search for a `.env` file, which has the
-- eight rounds of the source.
--
-- Parameters of the model: `toLowerCase`, `String`, `Number` and `JSON.parse`, SHA-256, `extname`,
-- `basename` and `encodeURIComponent`, the environment, what the rag-worker and the client of Redis
-- reply, the parser of UUIDs and `NOW()`, and what the document service answers, which may depend
-- on all requests so far. A finite number is a dyadic fraction. Postgres is taken to do
-- what it documents of transactions: what was done since `BEGIN` is seen by others from `COMMIT` on,
-- `ROLLBACK` and the loss of the connection drop it, and a statement outside is one by itself. A
-- command whose reply does not come back is taken not to have been run; a `COMMIT` of which only the
-- reply is lost is not covered. A write of a file may fail, and leaves it with any content.
--
-- Not modelled: HTTP and socket transport, the broker's connection, the React markup, the
-- services in Go and C#, and logging, which changes no state that the program reads.
pub mod Base
pub mod Shared
pub mod Rag
pub mod Chat
pub mod Config
pub mod Core
pub mod View
pub mod Documents
mod Tests
