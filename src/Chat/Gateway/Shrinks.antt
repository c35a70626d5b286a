-- ===== src/Chat/Gateway/Shrinks.antt =====
-- Once a query is registered its handler only removes entries from the two maps of the gateway.
use ragpolyglot_demo.Base.{◌≡◌, true, not, ◌||◌, arith}
use ragpolyglot_demo.Base.Text.{Text}
use ragpolyglot_demo.Shared.Types.{ChatMode, fast, deep}
use ragpolyglot_demo.Shared.Records.{RagResult}
use ragpolyglot_demo.Rag.Errors.{Failure}
use ragpolyglot_demo.Chat.Gateway.World.{World, Saved, map_has}
use ragpolyglot_demo.Chat.Gateway.Query.{
  Phase, Task, Reply, beginning, queueing, searching, answering, answer_clearing, failing,
  failure_clearing, abort_clearing, finish,
}
use ragpolyglot_demo.Chat.Gateway.Resume.{
  give_up, report_failure, handle_error, begin_done, on_token, on_progress, search_done,
  answer_saved, failure_saved, advance_from, advance,
}

-- At the key the later world has no entry that the earlier one lacks.
abbrev pub Shrinks : Text → World → World → Type 0
Shrinks k w w' =
    ((not (map_has k w'.inflight) || map_has k w.inflight) ≡ true)
    × ((not (map_has k w'.controllers) || map_has k w.controllers) ≡ true)

module _ (k : Text) (t : Task) (w : World) where
  Shrinks-refl : Shrinks k w w
  Shrinks-refl = ground arith

  finish-Shrinks : Shrinks k w (finish t w).0
  unfolding finish
  finish-Shrinks = ground arith

  handle_error-Shrinks : (e : Failure) → Shrinks k w (handle_error e t w).0
  unfolding handle_error give_up report_failure finish
  handle_error-Shrinks e = ground arith

  search_done-Shrinks : (r : RagResult) → Shrinks k w (search_done r t w).0
  unfolding search_done give_up finish
  search_done-Shrinks r = ground arith

  answer_saved-Shrinks :
      (m : ChatMode) (r : RagResult) (s : Saved) → Shrinks k w (answer_saved m r s t w).0
  unfolding answer_saved finish
  answer_saved-Shrinks deep r s = ground arith
  answer_saved-Shrinks fast r s = ground arith

  failure_saved-Shrinks :
      (m : ChatMode) (e : Text) (s : Saved) → Shrinks k w (failure_saved m e s t w).0
  unfolding failure_saved report_failure finish
  failure_saved-Shrinks deep e s = ground arith
  failure_saved-Shrinks fast e s = ground arith

  advance_from-Shrinks :
      (phase : Phase) (reply : Reply) → Shrinks k w (advance_from phase reply t w).0
  unfolding advance_from on_token on_progress begin_done report_failure finish
  advance_from-Shrinks beginning Reply.replied = Shrinks-refl
  advance_from-Shrinks beginning (Reply.failed e) = handle_error-Shrinks e
  advance_from-Shrinks queueing Reply.replied = Shrinks-refl
  advance_from-Shrinks searching (Reply.token tok) = ground arith
  advance_from-Shrinks searching (Reply.progress d n) = ground arith
  advance_from-Shrinks searching (Reply.found r) = search_done-Shrinks r
  advance_from-Shrinks searching (Reply.failed e) = handle_error-Shrinks e
  advance_from-Shrinks (answering r) (Reply.saved s) = answer_saved-Shrinks t.job.mode r s
  advance_from-Shrinks (answer_clearing r) Reply.replied = finish-Shrinks
  advance_from-Shrinks (failing e) (Reply.saved s) = failure_saved-Shrinks t.job.mode e s
  advance_from-Shrinks (failure_clearing e) Reply.replied = finish-Shrinks
  advance_from-Shrinks abort_clearing Reply.replied = finish-Shrinks
  advance_from-Shrinks _ _ = Shrinks-refl

pub advance-Shrinks :
    (k : Text) (reply : Reply) (t : Task) (w : World) → Shrinks k w (advance reply t w).0
unfolding advance
advance-Shrinks k reply t w = advance_from-Shrinks k t w t.phase reply
