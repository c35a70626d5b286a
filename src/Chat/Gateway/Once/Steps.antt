-- ===== src/Chat/Gateway/Once/Steps.antt =====
-- Each move of a query's life keeps the number of completions that are sent or owed.
use mathlib.Core.Path.{subst}
use ragpolyglot_demo.Base.{
  ℕ, ◌+◌, ◌≡◌, refl, ◌∙◌, sym, ap, Option, none, some, List, [], ◌∷◌, ◌++◌, arith,
}
use ragpolyglot_demo.Base.Text.{Text}
use ragpolyglot_demo.Shared.Number.{Number}
use ragpolyglot_demo.Chat.Gateway.World.{World, Inflight, Emission, to_room, Notice, chat_room}
use ragpolyglot_demo.Chat.Gateway.Query.{
  Phase, Task, Reply, finish, beginning, queueing, searching, answering, answer_clearing, failing,
  failure_clearing, abort_clearing,
}
use ragpolyglot_demo.Chat.Gateway.Resume.{on_token, on_progress, advance_from, advance}
use ragpolyglot_demo.Chat.Gateway.Solo.{resume, completes, is_complete}
use ragpolyglot_demo.Chat.Gateway.Once.{
  token_to, Early, LinkedAt, Linked, owed_at, owed, Pays, sent_one, report-Pays, begin_done-Pays,
  search_done-Pays, handle_error-Pays, answer_saved-Pays, failure_saved-Pays,
}

quiet_one :
    (xs : List Emission) (a : Emission) (n : ℕ)
    → is_complete a ≡ 0
    → completes (xs ++ a ∷ []) + n ≡ completes xs + n
quiet_one xs a n h = omega (arith, sent_one xs a)

paid_one :
    (xs : List Emission) (a : Emission)
    → is_complete a ≡ 1
    → completes (xs ++ a ∷ []) + 0 ≡ completes xs + 1
paid_one xs a h = omega (arith, sent_one xs a)

module _ (key : Text) (job : Inflight) where
  stays :
      (phase : Phase) (t : Task) (w : World)
      → t.phase ≡ phase
      → t.key ≡ key
      → t.job ≡ job
      → LinkedAt key job phase t w
      → Pays key job (owed_at phase (w.aborted t.controller)) w (w, some t)
  stays phase t w e k j h =
      subst (λ p. Pays key job (owed_at p (w.aborted t.controller)) w (w, some t)) e
        ((k, j, subst (λ p. LinkedAt key job p t w) (sym e) h), refl)

  abbrev progress_to : Number → Number → Task → Emission
  progress_to d n t =
      to_room (chat_room t.job.conversation_id) (Notice.progress t.job.conversation_id d n)

  -- A callback of the search changes nothing that a completion depends on.
  calls_back :
      (t : Task) (w w' : World)
      → t.phase ≡ searching
      → t.key ≡ key
      → t.job ≡ job
      → Early key job t w
      → (w'.inflight key ≡ w.inflight key) × (w'.controllers key ≡ w.controllers key)
      → completes w'.sent ≡ completes w.sent
      → w'.aborted t.controller ≡ w.aborted t.controller
      → Pays key job (owed_at searching (w.aborted t.controller)) w (w', some t)
  calls_back t w w' e k j h (i, c) n a = rw (← a) (
      let (l, o) = stays searching t w' e k j (rw (a, i, c) h) in
      (l, o ∙ ap (λ m. m + owed_at searching (w'.aborted t.controller)) n))

  advance_from-Pays :
      (phase : Phase) (reply : Reply) (t : Task) (w : World)
      → t.phase ≡ phase
      → t.key ≡ key
      → t.job ≡ job
      → LinkedAt key job phase t w
      → Pays key job (owed_at phase (w.aborted t.controller)) w (advance_from phase reply t w)
  unfolding advance_from on_token on_progress finish
  advance_from-Pays beginning Reply.replied t w e k j h = begin_done-Pays key job t w k j h
  advance_from-Pays beginning (Reply.failed x) t w e k j h = handle_error-Pays key job t w k j x h
  advance_from-Pays queueing Reply.replied t w e k j h = ((k, j, h), quiet_one w.sent _ _ refl)
  advance_from-Pays searching (Reply.token tok) t w e k j h =
      calls_back t w (on_token tok t w) e k j h (ground arith)
        (ground (arith, sent_one w.sent (token_to tok t))) (ground arith)
  advance_from-Pays searching (Reply.progress d n) t w e k j h =
      calls_back t w (on_progress d n t w) e k j h (ground arith)
        (ground (arith, sent_one w.sent (progress_to d n t))) (ground arith)
  advance_from-Pays searching (Reply.found r) t w e k j h = search_done-Pays key job t w k j r h
  advance_from-Pays searching (Reply.failed x) t w e k j h = handle_error-Pays key job t w k j x h
  advance_from-Pays (answering r) (Reply.saved s) t w e k j h =
      answer_saved-Pays key job t w k j t.job.mode r s h
  advance_from-Pays (answer_clearing r) Reply.replied t w e k j h =
      (ground arith, paid_one w.sent _ refl)
  advance_from-Pays (failing m) (Reply.saved s) t w e k j h =
      failure_saved-Pays key job t w k j t.job.mode m s h
  advance_from-Pays (failure_clearing m) Reply.replied t w e k j h =
      report-Pays key job t w k j m w h refl
  advance_from-Pays abort_clearing Reply.replied t w e k j h = ground arith
  advance_from-Pays phase _ t w e k j h = stays phase t w e k j h

  pub resume-Pays :
      (reply : Reply) (task : Option Task) (w : World)
      → Linked key job task w
      → Pays key job (owed task w) w (resume reply task w)
  unfolding advance
  resume-Pays reply none w h = (h, refl)
  resume-Pays reply (some t) w (k, j, h) = advance_from-Pays t.phase reply t w refl k j h
