-- ===== src/View/Socket.antt =====
-- apps/react-frontend/src/hooks/useWebSocket.ts: the socket that all components share, the rooms
-- that are joined again when it connects, and what is sent while it is not connected.
pub mod Rooms
use ragpolyglot_demo.Base.{Bool, true, false, not, List, [], ◌∷◌, ◌++◌, map, filter, if◌then◌else◌}
use ragpolyglot_demo.Base.Text.{Text, str_eq, is_empty}
use ragpolyglot_demo.Base.Order.{set_add}

-- An event to the gateway: a room to join, or another one.
pub data SocketEvent : Type 0 where
  subscribe_document subscribe_conversation : Text → SocketEvent
  other : Text → SocketEvent

-- `connected` and `sent` are the socket's: what it has sent since it last connected. `waiting` are
-- the handlers of `once('connect')`.
pub record Sockets : Type 0 where
  pub connected : Bool
  pub sent : List SocketEvent
  pub waiting : List SocketEvent
  pub document_ids : List Text
  pub conversation_ids : List Text

unfoldable pub emit_web_socket : SocketEvent → Sockets → Sockets
emit_web_socket event s =
    if s.connected
    then record s { sent = s.sent ++ event ∷ [] }
    else record s { waiting = s.waiting ++ event ∷ [] }

abbrev removed : Text → List Text → List Text
removed id ids = filter (λ i. not (str_eq i id)) ids

unfoldable pub subscribe_document_id : Text → Sockets → Sockets
subscribe_document_id id s =
    if is_empty id
    then s
    else emit_web_socket (SocketEvent.subscribe_document id)
        (record s { document_ids = set_add s.document_ids id })

unfoldable pub unsubscribe_document : Text → Sockets → Sockets
unsubscribe_document id s = record s { document_ids = removed id s.document_ids }

unfoldable pub subscribe_conversation_id : Text → Sockets → Sockets
subscribe_conversation_id id s =
    if is_empty id
    then s
    else emit_web_socket (SocketEvent.subscribe_conversation id)
        (record s { conversation_ids = set_add s.conversation_ids id })

unfoldable pub unsubscribe_conversation : Text → Sockets → Sockets
unsubscribe_conversation id s = record s { conversation_ids = removed id s.conversation_ids }

-- `resubscribeDocuments` and `resubscribeConversations`
abbrev pub resubscriptions : Sockets → List SocketEvent
resubscriptions s =
    map SocketEvent.subscribe_document s.document_ids
    ++ map SocketEvent.subscribe_conversation s.conversation_ids

-- The handlers of `connect`: the one of the shared socket is the first.
unfoldable pub on_connect : Sockets → Sockets
on_connect s = record s { connected = true; sent = resubscriptions s ++ s.waiting; waiting = [] }

unfoldable pub on_disconnect : Sockets → Sockets
on_disconnect s = record s { connected = false; sent = [] }
