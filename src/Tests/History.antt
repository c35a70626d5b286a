-- ===== src/Tests/History.antt =====
-- A turn whose second transaction fails.
use ragpolyglot_demo.Base.{◌≡◌, true, false, none, some, [], ◌∷◌}
use ragpolyglot_demo.Base.Text.{codes}
use ragpolyglot_demo.Chat.Postgres.{
  touch_conversation, Postgres, Transaction, in_session, fresh, run_in_transaction,
}
use ragpolyglot_demo.Chat.Postgres.Atomic.{Atomic, run_in_transaction-closed}
use ragpolyglot_demo.Chat.History.{persist_turn}
use ragpolyglot_demo.Chat.History.Turns.{
  AddsTurn, question_entry, answer_entry, persist_turn-AddsTurn,
}

-- Not connected yet: two commands connect, six make the first transaction, and then the link breaks.
abbrev breaking : Postgres
breaking = record {
  ready = false;
  link = true ∷ true ∷ true ∷ true ∷ true ∷ true ∷ true ∷ true ∷ false ∷ [];
  db = record { conversations = []; messages = []; next_id = 1 };
}

run_in_transaction-closed_example :
    Atomic some
      (codes "now")
      (touch_conversation (codes "c1") ∷ [])
      breaking.db
      (run_in_transaction some (codes "now") (touch_conversation (codes "c1") ∷ []) breaking)
    × ((in_session some
          (codes "now")
          (touch_conversation (codes "c1") ∷ [])
          (fresh some (codes "now") breaking.db)
          (true ∷ true ∷ false ∷ [])).session.transaction
        ≡ Transaction.idle)
run_in_transaction-closed_example =
    run_in_transaction-closed some (codes "now") (touch_conversation (codes "c1") ∷ []) breaking
      (true ∷ true ∷ false ∷ [])

persist_turn-AddsTurn_example :
    AddsTurn some
      (codes "now")
      (question_entry some (codes "now") (codes "c1") (codes "hello"))
      (answer_entry some (codes "now") (codes "c1") (codes "Hi"))
      breaking.db
      (persist_turn some
        (codes "now")
        (λ ids. codes "[]")
        (λ sources. codes "[]")
        (codes "c1")
        (codes "hello")
        (codes "Hi")
        []
        none
        breaking)
persist_turn-AddsTurn_example =
    persist_turn-AddsTurn some (codes "now") (λ ids. codes "[]") (λ sources. codes "[]")
      (codes "c1") (codes "hello") (codes "Hi") [] none breaking
