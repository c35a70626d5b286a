-- ===== src/View/Socket/Rooms.antt =====
-- While the socket is connected, the gateway has been asked for every room that is subscribed.
use ragpolyglot_demo.Base.{◌≡◌, refl, ap, ◌∙◌, false, not, ◌&&◌, List, [], ◌∷◌, ◌++◌, map, arith}
use ragpolyglot_demo.Base.Text.{Text}
use ragpolyglot_demo.Base.Order.{contains, contains-append, contains-set_add}
use ragpolyglot_demo.View.Socket.{
  resubscriptions, SocketEvent, Sockets, emit_web_socket, removed, subscribe_document_id,
  unsubscribe_document, subscribe_conversation_id, unsubscribe_conversation, on_connect,
  on_disconnect,
}

-- What happens to the socket.
pub data Move : Type 0 where
  open_document close_document open_conversation close_conversation : Text → Move
  connect disconnect : Move
  emit : SocketEvent → Move

unfoldable pub move : Move → Sockets → Sockets
move (Move.open_document id) s = subscribe_document_id id s
move (Move.close_document id) s = unsubscribe_document id s
move (Move.open_conversation id) s = subscribe_conversation_id id s
move (Move.close_conversation id) s = unsubscribe_conversation id s
move Move.connect s = on_connect s
move Move.disconnect s = on_disconnect s
move (Move.emit event) s = emit_web_socket event s

unfoldable pub moves : List Move → Sockets → Sockets
moves [] s = s
moves (m ∷ ms) s = moves ms (move m s)

-- The rooms of documents and of conversations that were asked for.
abbrev document_room : SocketEvent → List Text → List Text
document_room (SocketEvent.subscribe_document id) rest = id ∷ rest
document_room _ rest = rest

abbrev pub document_rooms : List SocketEvent → List Text
document_rooms [] = []
document_rooms (e ∷ es) = document_room e (document_rooms es)

abbrev conversation_room : SocketEvent → List Text → List Text
conversation_room (SocketEvent.subscribe_conversation id) rest = id ∷ rest
conversation_room _ rest = rest

abbrev pub conversation_rooms : List SocketEvent → List Text
conversation_rooms [] = []
conversation_rooms (e ∷ es) = conversation_room e (conversation_rooms es)

-- Every subscribed id is among the rooms that were asked for since the socket connected.
abbrev pub Joined : Sockets → Type 0
Joined s =
    (id : Text)
    → ((s.connected && contains id s.document_ids && not (contains id (document_rooms s.sent)))
        ≡ false)
      × ((s.connected
            && contains id s.conversation_ids
            && not (contains id (conversation_rooms s.sent)))
          ≡ false)

document_rooms-append :
    (xs ys : List SocketEvent) → document_rooms (xs ++ ys) ≡ document_rooms xs ++ document_rooms ys
document_rooms-append [] ys = refl
document_rooms-append (x ∷ xs) ys = ground (arith, document_rooms-append xs ys)

conversation_rooms-append :
    (xs ys : List SocketEvent)
    → conversation_rooms (xs ++ ys) ≡ conversation_rooms xs ++ conversation_rooms ys
conversation_rooms-append [] ys = refl
conversation_rooms-append (x ∷ xs) ys = ground (arith, conversation_rooms-append xs ys)

contains-removed :
    (k id : Text) (ids : List Text) → (contains k (removed id ids) && not (contains k ids)) ≡ false
unfolding contains
contains-removed k id [] = refl
contains-removed k id (i ∷ ids) = ground (arith, contains-removed k id ids)

rooms-documents : (ids : List Text) → document_rooms (map SocketEvent.subscribe_document ids) ≡ ids
rooms-documents [] = refl
rooms-documents (i ∷ ids) = ap (λ l. i ∷ l) (rooms-documents ids)

rooms-conversations :
    (ids : List Text) → conversation_rooms (map SocketEvent.subscribe_conversation ids) ≡ ids
rooms-conversations [] = refl
rooms-conversations (i ∷ ids) = ap (λ l. i ∷ l) (rooms-conversations ids)

no_conversations :
    (ids : List Text) → conversation_rooms (map SocketEvent.subscribe_document ids) ≡ []
no_conversations [] = refl
no_conversations (i ∷ ids) = no_conversations ids

-- The rooms that are asked for again.
joined-documents :
    (k : Text) (s : Sockets)
    → (contains k s.document_ids
        && not (contains k (document_rooms (resubscriptions s ++ s.waiting))))
      ≡ false
unfolding contains
joined-documents k s =
    let docs = map SocketEvent.subscribe_document s.document_ids in
    let convs = map SocketEvent.subscribe_conversation s.conversation_ids in
    let e : document_rooms (resubscriptions s ++ s.waiting)
        ≡ (s.document_ids ++ document_rooms convs) ++ document_rooms s.waiting =
      document_rooms-append (docs ++ convs) s.waiting
      ∙ ap (λ l. l ++ document_rooms s.waiting)
          (document_rooms-append docs convs
            ∙ ap (λ l. l ++ document_rooms convs) (rooms-documents s.document_ids)) in
    rw e (
      ground (
        arith,
        contains-append k (s.document_ids ++ document_rooms convs) (document_rooms s.waiting),
        contains-append k s.document_ids (document_rooms convs),
      ))

joined-conversations :
    (k : Text) (s : Sockets)
    → (contains k s.conversation_ids
        && not (contains k (conversation_rooms (resubscriptions s ++ s.waiting))))
      ≡ false
unfolding contains
joined-conversations k s =
    let docs = map SocketEvent.subscribe_document s.document_ids in
    let convs = map SocketEvent.subscribe_conversation s.conversation_ids in
    let e : conversation_rooms (resubscriptions s ++ s.waiting)
        ≡ s.conversation_ids ++ conversation_rooms s.waiting =
      conversation_rooms-append (docs ++ convs) s.waiting
      ∙ ap (λ l. l ++ conversation_rooms s.waiting)
          (conversation_rooms-append docs convs
            ∙ ap (λ l. l ++ conversation_rooms convs) (no_conversations s.document_ids)
            ∙ rooms-conversations s.conversation_ids) in
    rw e (ground (arith, contains-append k s.conversation_ids (conversation_rooms s.waiting)))

move-Joined : (m : Move) (s : Sockets) → Joined s → Joined (move m s)
unfolding on_connect move subscribe_document_id unsubscribe_document subscribe_conversation_id
    unsubscribe_conversation on_disconnect emit_web_socket contains
move-Joined (Move.open_document id) s h k = ground (
  arith,
  h k,
  contains-set_add k s.document_ids id,
  document_rooms-append s.sent (SocketEvent.subscribe_document id ∷ []),
  conversation_rooms-append s.sent (SocketEvent.subscribe_document id ∷ []),
  contains-append k (document_rooms s.sent) (id ∷ []),
  contains-append k (conversation_rooms s.sent) [],
)
move-Joined (Move.close_document id) s h k =
    ground (arith, h k, contains-removed k id s.document_ids)
move-Joined (Move.open_conversation id) s h k = ground (
  arith,
  h k,
  contains-set_add k s.conversation_ids id,
  document_rooms-append s.sent (SocketEvent.subscribe_conversation id ∷ []),
  conversation_rooms-append s.sent (SocketEvent.subscribe_conversation id ∷ []),
  contains-append k (document_rooms s.sent) [],
  contains-append k (conversation_rooms s.sent) (id ∷ []),
)
move-Joined (Move.close_conversation id) s h k =
    ground (arith, h k, contains-removed k id s.conversation_ids)
move-Joined Move.connect s h k = ground (arith, joined-documents k s, joined-conversations k s)
move-Joined Move.disconnect s h k = ground arith
move-Joined (Move.emit event) s h k = ground (
  arith,
  h k,
  document_rooms-append s.sent (event ∷ []),
  conversation_rooms-append s.sent (event ∷ []),
  contains-append k (document_rooms s.sent) (document_rooms (event ∷ [])),
  contains-append k (conversation_rooms s.sent) (conversation_rooms (event ∷ [])),
)

moves_keep : (ms : List Move) (s : Sockets) → Joined s → Joined (moves ms s)
unfolding moves
moves_keep [] s h = h
moves_keep (m ∷ ms) s h = moves_keep ms (move m s) (move-Joined m s h)

-- A socket that has not connected yet.
abbrev pub fresh : Sockets
fresh = record {
  connected = false;
  sent = [];
  waiting = [];
  document_ids = [];
  conversation_ids = [];
}

-- After any subscriptions, connections and losses of the connection, a socket that is connected
-- has asked, since it connected, for the room of every document and conversation that is subscribed.
pub moves-Joined : (ms : List Move) → Joined (moves ms fresh)
moves-Joined ms = moves_keep ms fresh (λ k. (refl, refl))
