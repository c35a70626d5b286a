-- ===== src/Tests/Reading.antt =====
-- A history with one conversation, which is deleted.
use ragpolyglot_demo.Base.{◌≡◌, refl, true, none, some, [], ◌∷◌}
use ragpolyglot_demo.Base.Text.{codes, str_eq}
use ragpolyglot_demo.Chat.Postgres.{Postgres, Db}
use ragpolyglot_demo.Chat.Reading.{delete_conversation}
use ragpolyglot_demo.Chat.Reading.Deleting.{has_parents, Deletes, delete_conversation-Deletes}

abbrev tables : Db
tables = record {
  conversations =
      record {
        id = codes "c1";
        title = codes "hello";
        document_ids = codes "[]";
        created_at = codes "1";
        updated_at = codes "2";
      }
      ∷ [];
  messages =
      record {
        id = 1;
        conversation_id = codes "c1";
        role = codes "user";
        text = codes "hello";
        sources = none;
        created_at = codes "1";
      }
      ∷ [];
  next_id = 2;
}

abbrev connected : Postgres
connected = record { ready = true; link = []; db = tables }

parents : has_parents tables ≡ true
unfolding str_eq
parents = refl

delete_conversation-Deletes_example :
    Deletes some
      (codes "now")
      (λ s. none)
      (codes "c1")
      tables
      (delete_conversation some (λ s. none) (codes "c1") connected)
delete_conversation-Deletes_example =
    delete_conversation-Deletes some (codes "now") (λ s. none) (codes "c1") connected parents
