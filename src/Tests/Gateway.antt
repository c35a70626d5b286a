-- ===== src/Tests/Gateway.antt =====
-- A fast query that is interrupted, a deep query that is sent again after Stop, and a broker event.
use ragpolyglot_demo.Base.{
  ◌+◌, ◌≡◌, refl, true, false, none, some, List, [], ◌∷◌, is_some, ◌==◌, if◌then◌else◌,
}
use ragpolyglot_demo.Base.Text.{codes, str_eq}
use ragpolyglot_demo.Base.Order.{contains}
use ragpolyglot_demo.Shared.Number.{whole}
use ragpolyglot_demo.Shared.Types.{DocumentStatus, DocumentProgressStage, find_named, fast, deep}
use ragpolyglot_demo.Shared.Contracts.{is_document_progress_stage}
use ragpolyglot_demo.Rag.Errors.{abort_error}
use ragpolyglot_demo.Chat.Gateway.World.{World, Inflight, both, chat_interrupt_key}
use ragpolyglot_demo.Chat.Gateway.Query.{Task, Reply, Phase, ChatQuery, accept, register, finish}
use ragpolyglot_demo.Chat.Gateway.Resume.{advance, advance_from, on_token, handle_error, give_up}
use ragpolyglot_demo.Chat.Gateway.Interrupt.{interrupt, advance_stop, stop_saved}
use ragpolyglot_demo.Chat.Gateway.Solo.{
  Move, replied, interrupted, stop_replied, move, play, begin, completes,
}
use ragpolyglot_demo.Chat.Gateway.Tracked.{Action, ask, IsTracked, perform_all}
use ragpolyglot_demo.Chat.Gateway.Once.Play.{query_completed_once}
use ragpolyglot_demo.Chat.Gateway.Tracked.{perform_all-IsTracked}
use ragpolyglot_demo.Chat.Gateway.Orphan.{finish_orphans}
use ragpolyglot_demo.Chat.Status.{
  StatusEvent, ParsedDocumentStatusEvent, parse_document_status_event, kind_of,
}
use ragpolyglot_demo.Chat.Status.Shape.{
  IsCoherent, parse_document_status_event-IsCoherent, routing_keys, contains-routing_keys,
}
use ragpolyglot_demo.Tests.Shared.{ascii_js}

abbrev empty_world : World
empty_world = record {
  controllers = λ k. none;
  aborted = λ id. false;
  next_controller = 0;
  inflight = λ k. none;
  jobs = λ k. none;
  redis_ready = true;
  stored = [];
  sent = [];
  joined = [];
}

abbrev fast_job : Inflight
fast_job = record {
  conversation_id = codes "c1";
  query = codes "hello";
  mode = fast;
  document_ids = none;
}

abbrev deep_job : Inflight
deep_job = record {
  conversation_id = codes "c1";
  query = codes "hello";
  mode = deep;
  document_ids = none;
}

abbrev stopped_moves : List Move
stopped_moves =
    replied (Reply.token (codes "Hi"))
    ∷ interrupted
    ∷ replied (Reply.failed abort_error)
    ∷ stop_replied both
    ∷ []

query_completed_once_example :
    completes
      (play
        (codes "s1")
        (codes "c1")
        stopped_moves
        (begin (codes "s1") fast_job empty_world)).world.sent
    ≡ completes empty_world.sent + 1
unfolding play move begin accept register chat_interrupt_key advance advance_from on_token
    handle_error give_up finish interrupt advance_stop stop_saved str_eq completes
query_completed_once_example =
    query_completed_once (codes "s1") fast_job empty_world stopped_moves refl refl (refl, refl) refl
      refl refl

abbrev asked : ChatQuery
asked = record {
  query = some (codes " hello ");
  conversation_id = some (codes "c1");
  user_id = none;
  document_ids = none;
  mode = some (codes "deep");
}

abbrev two_questions : List Action
two_questions =
    ask ascii_js (codes "s1") asked (codes "u1") ∷ ask ascii_js (codes "s2") asked (codes "u2") ∷ []

perform_all-IsTracked_example : IsTracked (perform_all two_questions empty_world)
perform_all-IsTracked_example = perform_all-IsTracked two_questions empty_world (λ k. refl)

-- The first handler of a conversation, and the second one that was accepted after Stop.
abbrev first_task : Task
first_task = record {
  controller = 0;
  key = codes "deep:c1";
  job = deep_job;
  deep_started = true;
  phase = Phase.abort_clearing;
}

abbrev second_task : Task
second_task = record {
  controller = 1;
  key = codes "deep:c1";
  job = deep_job;
  deep_started = true;
  phase = Phase.searching;
}

-- The second handler is registered, and the first one has been aborted.
abbrev sent_again : World
sent_again = record empty_world {
  controllers = λ k. if str_eq k (codes "deep:c1") then some 1 else none;
  aborted = λ id. id == 0;
  next_controller = 2;
  inflight = λ k. if str_eq k (codes "deep:c1") then some deep_job else none;
}

finish_orphans_example :
    let after = (finish first_task sent_again).0 in
    let out = interrupt (codes "s1") (codes "c1") after in
    (out.1 ≡ none)
    × (out.0.aborted 1 ≡ false)
    × (out.0.sent ≡ [])
    × (is_some (accept (codes "s1") deep_job after).1 ≡ true)
unfolding chat_interrupt_key str_eq
finish_orphans_example =
    finish_orphans (codes "s1") deep_job first_task second_task sent_again refl refl refl refl refl
      refl

abbrev progress_event : StatusEvent
progress_event = record {
  type = some (codes "document.progress");
  document_id = some (codes "d1");
  stage = some (codes "embedding");
  done = some (whole 3);
  total = none;
  error_reason = none;
}

abbrev progress_parsed : ParsedDocumentStatusEvent
progress_parsed = record {
  document_id = codes "d1";
  status = some DocumentStatus.processing;
  progress = some (record {
    progress_stage = DocumentProgressStage.embedding;
    progress_done = whole 3;
    progress_total = whole 0;
  });
  summarize = none;
}

parse_document_status_event-IsCoherent_example : IsCoherent progress_event progress_parsed
unfolding parse_document_status_event find_named str_eq is_document_progress_stage
parse_document_status_event-IsCoherent_example =
    parse_document_status_event-IsCoherent progress_event progress_parsed refl

contains-routing_keys_example :
    contains (codes "document.paused") routing_keys
    ≡ is_some (kind_of (some (codes "document.paused")))
contains-routing_keys_example = contains-routing_keys (codes "document.paused")
