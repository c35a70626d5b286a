-- ===== src/Chat/Reading/Deleting.antt =====
-- Deleting a conversation: it and its messages, or nothing.
use mathlib.Core.Path.{ap₂}
use ragpolyglot_demo.Base.{
  subst, ◌≡◌, refl, sym, ap, ◌∙◌, Bool, true, false, not, Option, none, some, List, [], ◌∷◌, ◌⊎◌,
  inl, inr, map, filter, any, all, arith, Bool-cases, if◌then◌else◌,
}
use ragpolyglot_demo.Base.Text.{Text, str_eq, str_eq_iff}
use ragpolyglot_demo.Chat.Postgres.{
  ConversationRow, MessageRow, Db, Postgres, next, later, ensure_ready, has_conversation,
}
use ragpolyglot_demo.Chat.Postgres.Atomic.{ensure_ready-db}
use ragpolyglot_demo.Shared.Json.{Json}
use ragpolyglot_demo.Chat.Reading.{
  ready_or_throw, queried, answered, ReadError, exec, deleted, and_read, ensure_history,
  unless_missing, delete_conversation,
}

-- `REFERENCES conversations(id)`: each message has its conversation.
abbrev pub has_parents : Db → Bool
has_parents db = all (λ m. has_conversation m.conversation_id db) db.messages

-- The tables without a conversation and its messages.
abbrev pub without : Text → Db → Db
without id db = record db {
  conversations = filter (λ c. not (str_eq c.id id)) db.conversations;
  messages = filter (λ m. not (str_eq m.conversation_id id)) db.messages;
}

missing-conversations :
    (id : Text) (rows : List ConversationRow)
    → map (λ c. c.id) (filter (λ c. str_eq c.id id) rows) ≡ []
    → (filter (λ c. not (str_eq c.id id)) rows ≡ rows) × (any (λ c. str_eq c.id id) rows ≡ false)
missing-conversations id [] h = (refl, refl)
missing-conversations id (c ∷ rows) h = ground (arith, h, missing-conversations id rows)

missing-messages :
    (id : Text) (rows : List ConversationRow) (ms : List MessageRow)
    → any (λ c. str_eq c.id id) rows ≡ false
    → all (λ m. any (λ c. str_eq c.id m.conversation_id) rows) ms ≡ true
    → filter (λ m. not (str_eq m.conversation_id id)) ms ≡ ms
missing-messages id rows [] h k = refl
missing-messages id rows (m ∷ ms) h k = elim (Bool-cases (str_eq m.conversation_id id)) [
  | inl e ↦
      let here : any (λ c. str_eq c.id m.conversation_id) rows ≡ true = ground (arith, k) in
      cc (here, h, ap (λ i. any (λ c. str_eq c.id i) rows) ((str_eq_iff m.conversation_id id).0 e))
  | inr e ↦ ground (arith, e, k, missing-messages id rows ms h)
]

some_conversation :
    (id : Text) (rows : List ConversationRow) (x : Text) (xs : List Text)
    → map (λ c. c.id) (filter (λ c. str_eq c.id id) rows) ≡ x ∷ xs
    → any (λ c. str_eq c.id id) rows ≡ true
some_conversation id [] x xs h = cc
some_conversation id (c ∷ rows) x xs h = ground (arith, h, some_conversation id rows x xs)

Db-eq :
    (db : Db) (cs : List ConversationRow) (ms : List MessageRow)
    → cs ≡ db.conversations
    → ms ≡ db.messages
    → record db { conversations = cs; messages = ms } ≡ db
Db-eq db cs ms e f = ap₂ (λ x y. record db { conversations = x; messages = y }) e f

-- The rows of a query and the tables behind it, or an error and the tables as they were.
abbrev Queried : {A : Type 0} → Option (A × Db) → Db → (ReadError ⊎ A) × Postgres → Type 0
Queried answer db (inl e, p) = p.db ≡ db
Queried answer db (inr rows, p) = answer ≡ some (rows, p.db)

answered-Queried :
    {A : Type 0}
    → (answer : Option (A × Db)) (p : Postgres) → Queried answer p.db (answered answer p)
answered-Queried none p = refl
answered-Queried (some (rows, db)) p = refl

queried-Queried :
    {A : Type 0}
    → (q : Db → Option (A × Db)) (b : Bool) (p : Postgres) → Queried (q p.db) p.db (queried q b p)
queried-Queried q true p = answered-Queried (q p.db) p
queried-Queried q false p = refl

exec_ready-Queried :
    {A : Type 0}
    → (q : Db → Option (A × Db)) (p : Postgres) (ready : Bool)
    → Queried (q p.db) p.db (
        if ready
        then queried q (next p.link) (record p { link = later p.link })
        else (inl ReadError.database, p))
exec_ready-Queried q p true = queried-Queried q (next p.link) (record p { link = later p.link })
exec_ready-Queried q p false = refl

some-pair : {A B : Type 0} → (u v : A × B) → some u ≡ some v → (u.0 ≡ v.0) × (u.1 ≡ v.1)
some-pair u v e = let same : u ≡ v = cc e in (ap (λ w. w.0) same, ap (λ w. w.1) same)

module _ (uuid : Text → Option Text) (now : Text) (json_of : Text → Option Json) where
  exec-Queried :
      {A : Type 0} → (q : Db → Option (A × Db)) (p : Postgres) → Queried (q p.db) p.db (exec q p)
  unfolding exec
  exec-Queried q p =
      subst (λ db. Queried (q db) db (exec q p)) (ensure_ready-db uuid now p)
        (exec_ready-Queried q (ensure_ready p) (ensure_ready p).ready)

  -- Both the conversation and its messages, or nothing.
  abbrev pub Deletes : Text → Db → (ReadError ⊎ Unit {0}) × Postgres → Type 0
  Deletes id db (inl e, p) = p.db ≡ db
  Deletes id db (inr _, p) =
      (canonical : Text) × (uuid id ≡ some canonical)
      × (has_conversation canonical db ≡ true)
      × (p.db ≡ without canonical db)

  deleted-Deletes :
      (id : Text) (o : Option Text) (db : Db) (out : (ReadError ⊎ List Text) × Postgres)
      → uuid id ≡ o
      → has_parents db ≡ true
      → Queried (deleted uuid json_of o db) db out
      → Deletes id db (and_read out (unless_missing uuid json_of))
  deleted-Deletes id o db (inl e, p) u h q = q
  deleted-Deletes id none db (inr rows, p) u h q = cc
  deleted-Deletes id (some canonical) db (inr [], p) u h q =
      let (none_deleted, e) = some-pair _ _ q in
      let (cs, absent) = missing-conversations canonical db.conversations none_deleted in
      sym e ∙ Db-eq db _ _ cs (missing-messages canonical db.conversations db.messages absent h)
  deleted-Deletes id (some canonical) db (inr (x ∷ xs), p) u h q =
      let (rows, e) = some-pair _ _ q in
      (canonical, u, some_conversation canonical db.conversations x xs rows, sym e)

  ensure_history-db : (p : Postgres) → (ensure_history p).1.db ≡ p.db
  ensure_history-db p = ready-db (ensure_ready p) ∙ ensure_ready-db uuid now p
    where
      ready-db : (p : Postgres) → (ready_or_throw p).1.db ≡ p.db
      ready-db p = ground arith

  ensured-Deletes :
      (id : Text) (db : Db) (out : (ReadError ⊎ Unit {0}) × Postgres)
      → has_parents db ≡ true
      → out.1.db ≡ db
      → Deletes id db (
          and_read out (λ _ p.
            and_read (exec (deleted uuid json_of (uuid id)) p) (unless_missing uuid json_of)))
  ensured-Deletes id db (inl e, p) h same = same
  ensured-Deletes id db (inr _, p) h same =
      subst
        (λ d.
          Deletes id d
            (and_read (exec (deleted uuid json_of (uuid id)) p) (unless_missing uuid json_of)))
        same
        (deleted-Deletes id (uuid id) p.db (exec (deleted uuid json_of (uuid id)) p) refl
          (ap has_parents same ∙ h) (exec-Queried (deleted uuid json_of (uuid id)) p))

  -- `delete` of a conversation, where each message has its conversation: without an exception,
  -- there was a conversation with that id, and it is gone with its messages, and nothing else; with
  -- an exception, also for an id that is unknown, the tables are as before.
  pub delete_conversation-Deletes :
      (id : Text) (p : Postgres)
      → has_parents p.db ≡ true
      → Deletes id p.db (delete_conversation uuid json_of id p)
  unfolding delete_conversation
  delete_conversation-Deletes id p h =
      ensured-Deletes id p.db (ensure_history p) h (ensure_history-db p)
