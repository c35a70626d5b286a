-- ===== src/Chat/History/Turns.antt =====
-- What a turn leaves in the table of messages.
use ragpolyglot_demo.Base.{
  ◌≡◌, refl, sym, ap, subst, ◌∙◌, Bool, true, false, Option, none, some, List, [], ◌∷◌, ◌++◌, map,
  append_assoc, ◌⊎◌, inl, inr, arith, if◌then◌else◌, or_else,
}
use ragpolyglot_demo.Base.Text.{Text, codes}
use ragpolyglot_demo.Shared.Records.{Source}
use ragpolyglot_demo.Chat.Postgres.{
  MessageRow, Db, Statement, upsert_conversation, touch_conversation, insert_message, Postgres, Ran,
  ensure_ready, upsert, touch, insert, execute, run_in_transaction,
}
use ragpolyglot_demo.Chat.Postgres.Atomic.{
  and_execute, execute_all, Atomic, if-Atomic, ensure_ready-db, run_in_transaction-Atomic,
}
use ragpolyglot_demo.Chat.History.{
  when_ready, and_then, begin_turn, complete_assistant, persist_turn,
}

-- The conversation, the role and the text of a message.
abbrev pub Entry : Type 0
Entry = Text × Text × Text

abbrev entry_of : MessageRow → Entry
entry_of row = (row.conversation_id, row.role, row.text)

unfoldable pub history : Db → List Entry
history db = map entry_of db.messages

entries-append :
    (xs : List MessageRow) (row : MessageRow)
    → map entry_of (xs ++ row ∷ []) ≡ map entry_of xs ++ entry_of row ∷ []
entries-append [] row = refl
entries-append (x ∷ xs) row = ap (λ es. entry_of x ∷ es) (entries-append xs row)

if-eq-some : (b : Bool) (x y : Db) → (if b then some x else none) ≡ some y → x ≡ y
if-eq-some true x y h = ground arith
if-eq-some false x y h = cc

module _ (uuid : Text → Option Text) (now : Text) where
  abbrev pub spelling : Text → Text
  spelling id = or_else (uuid id) id

  abbrev pub question_entry : Text → Text → Entry
  question_entry id query = (spelling id, codes "user", query)

  abbrev pub answer_entry : Text → Text → Entry
  answer_entry id answer = (spelling id, codes "assistant", answer)

  upsert-history :
      (o : Option Text) (title ids : Text) (db db' : Db)
      → upsert uuid now o title ids db ≡ some db'
      → history db' ≡ history db
  unfolding history
  upsert-history none title ids db db' h = cc
  upsert-history (some id) title ids db db' h = ground arith

  touch-history :
      (o : Option Text) (db db' : Db) → touch uuid now o db ≡ some db' → history db' ≡ history db
  unfolding history
  touch-history none db db' h = cc
  touch-history (some id) db db' h = ground arith

  insert-history :
      (o : Option Text) (id role text : Text) (sources : Option Text) (db db' : Db)
      → insert uuid now o role text sources db ≡ some db'
      → history db' ≡ history db ++ (or_else o id, role, text) ∷ []
  unfolding history
  insert-history none id role text sources db db' h = cc
  insert-history (some canonical) id role text sources db db' h =
      sym (ap history (if-eq-some _ _ db' h)) ∙ entries-append db.messages _

  and_execute-eq-some :
      (o : Option Db) (rest : Db → Option Db) (db' : Db)
      → and_execute uuid now o rest ≡ some db'
      → (d : Db) × (o ≡ some d) × (rest d ≡ some db')
  and_execute-eq-some none rest db' h = cc
  and_execute-eq-some (some d) rest db' h = (d, refl, h)

  two-history :
      (first second : Db → Option Db) (e : Entry)
      → ((db db' : Db) → first db ≡ some db' → history db' ≡ history db)
      → ((db db' : Db) → second db ≡ some db' → history db' ≡ history db ++ e ∷ [])
      → (db db' : Db)
      → and_execute uuid now (first db) (λ d. and_execute uuid now (second d) some) ≡ some db'
      → history db' ≡ history db ++ e ∷ []
  two-history first second e f g db db' h =
      let (d, one, rest) = and_execute-eq-some (first db) _ db' h in
      let (d', two, same) = and_execute-eq-some (second d) _ db' rest in
      g d db' (two ∙ same) ∙ ap (λ es. es ++ e ∷ []) (f db d one)

  begin-history :
      (id title ids query : Text) (db db' : Db)
      → execute_all uuid now
          (upsert_conversation id title ids ∷ insert_message id (codes "user") query none ∷ [])
          db
        ≡ some db'
      → history db' ≡ history db ++ (spelling id, codes "user", query) ∷ []
  unfolding execute_all execute
  begin-history id title ids query =
      two-history (upsert uuid now (uuid id) title ids) _ _ (upsert-history (uuid id) title ids)
        (insert-history (uuid id) id (codes "user") query none)

  complete-history :
      (id answer : Text) (sources : Option Text) (db db' : Db)
      → execute_all uuid now
          (touch_conversation id ∷ insert_message id (codes "assistant") answer sources ∷ [])
          db
        ≡ some db'
      → history db' ≡ history db ++ (spelling id, codes "assistant", answer) ∷ []
  unfolding execute_all execute
  complete-history id answer sources =
      two-history (touch uuid now (uuid id)) _ _ (touch-history (uuid id))
        (insert-history (uuid id) id (codes "assistant") answer sources)

  -- One more entry, or an exception and nothing.
  abbrev Adds : Entry → Db → Ran → Type 0
  Adds e db out =
      ((out.threw ≡ false) × (history out.postgres.db ≡ history db ++ e ∷ []))
      ⊎ ((out.threw ≡ true) × (history out.postgres.db ≡ history db))

  Atomic-Adds :
      (sts : List Statement) (e : Entry) (db : Db) (out : Ran)
      → ((db' : Db) → execute_all uuid now sts db ≡ some db' → history db' ≡ history db ++ e ∷ [])
      → Atomic uuid now sts db out
      → Adds e db out
  Atomic-Adds sts e db out f (inl (ok, all)) = inl (ok, f _ all)
  Atomic-Adds sts e db out f (inr (threw, same)) = inr (threw, ap history same)

  when_ready-Atomic :
      (sts : List Statement) (p : Postgres)
      → Atomic uuid now sts p.db (when_ready uuid now sts (ensure_ready p))
  when_ready-Atomic sts p =
      let p' = ensure_ready p in
      subst (λ db. Atomic uuid now sts db (when_ready uuid now sts p')) (ensure_ready-db uuid now p)
        (if-Atomic uuid now p'.ready (run_in_transaction uuid now sts p')
          (record { postgres = p'; threw = true }) sts p'.db
          (run_in_transaction-Atomic uuid now sts p') (inr (refl, refl)))

  -- Both entries, or an exception and the first of them at most.
  abbrev pub AddsTurn : Entry → Entry → Db → Ran → Type 0
  AddsTurn e e' db out =
      ((out.threw ≡ false) × (history out.postgres.db ≡ history db ++ e ∷ e' ∷ []))
      ⊎ ((out.threw ≡ true)
          × ((history out.postgres.db ≡ history db)
              ⊎ (history out.postgres.db ≡ history db ++ e ∷ [])))

  second-AddsTurn :
      (e e' : Entry) (db between : Db) (out : Ran)
      → history between ≡ history db ++ e ∷ []
      → Adds e' between out
      → AddsTurn e e' db out
  second-AddsTurn e e' db between out h (inl (ok, k)) =
      inl (ok, k ∙ ap (λ es. es ++ e' ∷ []) h ∙ append_assoc (history db) (e ∷ []) (e' ∷ []))
  second-AddsTurn e e' db between out h (inr (threw, k)) = inr (threw, inr (k ∙ h))

  and_then-AddsTurn :
      (e e' : Entry) (db : Db) (out : Ran) (rest : Postgres → Ran)
      → Adds e db out
      → ((p : Postgres) → Adds e' p.db (rest p))
      → AddsTurn e e' db (and_then uuid now out rest)
  and_then-AddsTurn e e' db out rest (inl (ok, h)) k =
      rw ok (second-AddsTurn e e' db out.postgres.db (rest out.postgres) h (k out.postgres))
  and_then-AddsTurn e e' db out rest (inr (threw, h)) k = rw threw (inr (refl, inl h))

  module _ (stringify_ids : List Text → Text) (stringify_sources : List Source → Text) where
    begin_turn-Adds :
        (id query : Text) (ids : Option (List Text)) (p : Postgres)
        → Adds
            (spelling id, codes "user", query)
            p.db
            (begin_turn uuid now stringify_ids id query ids p)
    unfolding begin_turn
    begin_turn-Adds id query ids p =
        Atomic-Adds _ _ p.db (begin_turn uuid now stringify_ids id query ids p)
          (begin-history id _ _ query p.db) (when_ready-Atomic _ p)

    complete_assistant-Adds :
        (id answer : Text) (sources : List Source) (p : Postgres)
        → Adds
            (spelling id, codes "assistant", answer)
            p.db
            (complete_assistant uuid now stringify_sources id answer sources p)
    unfolding complete_assistant
    complete_assistant-Adds id answer sources p =
        Atomic-Adds _ _ p.db (complete_assistant uuid now stringify_sources id answer sources p)
          (complete-history id answer _ p.db) (when_ready-Atomic _ p)

    -- When a turn is saved without an exception, the history is longer by the question and the
    -- answer, in this order; when an exception is thrown it is as it was, or longer by the question
    -- alone. So it is for every failure of the connection and every refusal of the server.
    pub persist_turn-AddsTurn :
        (id query answer : Text) (sources : List Source) (ids : Option (List Text)) (p : Postgres)
        → AddsTurn
            (question_entry id query)
            (answer_entry id answer)
            p.db
            (persist_turn uuid now stringify_ids stringify_sources id query answer sources ids p)
    unfolding persist_turn
    persist_turn-AddsTurn id query answer sources ids p =
        and_then-AddsTurn _ _ p.db (begin_turn uuid now stringify_ids id query ids p)
          (λ p'. complete_assistant uuid now stringify_sources id answer sources p')
          (begin_turn-Adds id query ids p) (complete_assistant-Adds id answer sources)
