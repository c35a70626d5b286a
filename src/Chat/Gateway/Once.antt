-- ===== src/Chat/Gateway/Once.antt =====
-- The completions that the handler of a query has sent or still owes, step by step.
mod Steps
mod Interrupts
pub mod Play
use ragpolyglot_demo.Base.{
  ℕ, ◌+◌, ◌≡◌, refl, ◌∙◌, ◌⊎◌, inl, inr, Bool, true, false, ◌&&◌, Option, none, some, List, [], ◌∷◌,
  ◌++◌, arith, ◌==◌, ◌||◌, not, if◌then◌else◌,
}
use ragpolyglot_demo.Base.Text.{Text, str_eq, str_eq_iff, str_eq_refl}
use ragpolyglot_demo.Shared.Types.{ChatMode, fast, deep}
use ragpolyglot_demo.Shared.Records.{RagResult}
use ragpolyglot_demo.Rag.Errors.{Failure}
use ragpolyglot_demo.Chat.Gateway.World.{
  World, Inflight, Saved, both, only_user, nothing, Emission, to_room, to_client, Notice,
  chat_interrupt_key, chat_room, complete_error,
}
use ragpolyglot_demo.Chat.Gateway.Query.{
  Phase, Task, Reply, register, finish, settle, wait, beginning, queueing, searching, answering,
  answer_clearing, failing, failure_clearing, abort_clearing,
}
use ragpolyglot_demo.Chat.Gateway.Resume.{
  error_message, give_up, report_failure, handle_error, begin_done, on_token, on_progress,
  search_done, answer_saved, failure_saved, advance_from, advance,
}
use ragpolyglot_demo.Chat.Gateway.Interrupt.{
  Stop, interrupt, advance_stop, stop_saved, saving, clearing,
}
use ragpolyglot_demo.Chat.Gateway.Solo.{
  Solo, Move, replied, interrupted, stop_replied, resume, resume_stop, move, play, begin, completes,
  is_complete,
}

completes-append : (xs ys : List Emission) → completes (xs ++ ys) ≡ completes xs + completes ys
unfolding completes
completes-append [] ys = omega arith
completes-append (e ∷ es) ys = omega (arith, completes-append es ys)

-- The completions behind one, two and three emissions.
sent_two :
    (xs : List Emission) (a b : Emission)
    → completes ((xs ++ a ∷ []) ++ b ∷ []) ≡ completes xs + is_complete a + is_complete b
unfolding completes
sent_two xs a b =
    omega (arith, completes-append xs (a ∷ []), completes-append (xs ++ a ∷ []) (b ∷ []))

sent_three :
    (xs : List Emission) (a b c : Emission)
    → completes (((xs ++ a ∷ []) ++ b ∷ []) ++ c ∷ [])
      ≡ completes xs + is_complete a + is_complete b + is_complete c
unfolding completes
sent_three xs a b c =
    omega (arith, sent_two xs a b, completes-append ((xs ++ a ∷ []) ++ b ∷ []) (c ∷ []))

sent_one :
    (xs : List Emission) (a : Emission) → completes (xs ++ a ∷ []) ≡ completes xs + is_complete a
unfolding completes
sent_one xs a = omega (arith, completes-append xs (a ∷ []))

-- The completions that a handler still owes: none once an interrupt has taken its query.
abbrev owed_at : Phase → Bool → ℕ
owed_at beginning aborted = if aborted then 0 else 1
owed_at queueing aborted = if aborted then 0 else 1
owed_at searching aborted = if aborted then 0 else 1
owed_at abort_clearing aborted = 0
owed_at _ aborted = 1

abbrev owed : Option Task → World → ℕ
owed none w = 0
owed (some t) w = owed_at t.phase (w.aborted t.controller)

abbrev started_to : Task → Emission
started_to t =
    to_room (chat_room t.job.conversation_id)
      (Notice.started t.job.conversation_id t.job.mode t.job.query)

abbrev token_to : Text → Task → Emission
token_to message t =
    to_room (chat_room t.job.conversation_id) (Notice.token message t.job.conversation_id)

abbrev complete_to : Task → Emission
complete_to t = to_room (chat_room t.job.conversation_id) (complete_error t.job.conversation_id)

sent_two_plus :
    (xs : List Emission) (a b : Emission)
    → completes ((xs ++ a ∷ []) ++ b ∷ []) + 0 ≡ completes xs + is_complete a + is_complete b
sent_two_plus xs a b = omega (arith, sent_two xs a b)

module _ (key : Text) (job : Inflight) where
  -- Before its search is over a handler is either registered and not aborted, or an interrupt has
  -- aborted it and taken its query away.
  abbrev Early : Task → World → Type 0
  Early t w =
      ((w.aborted t.controller ≡ false)
        × (w.inflight key ≡ some job)
        × (w.controllers key ≡ some t.controller))
      ⊎ ((w.aborted t.controller ≡ true) × (w.inflight key ≡ none))

  abbrev LinkedAt : Phase → Task → World → Type 0
  LinkedAt beginning t w = Early t w
  LinkedAt queueing t w = Early t w
  LinkedAt searching t w = Early t w
  LinkedAt abort_clearing t w = (w.aborted t.controller ≡ true) × (w.inflight key ≡ none)
  LinkedAt _ t w = w.inflight key ≡ none

  abbrev Linked : Option Task → World → Type 0
  Linked none w = w.inflight key ≡ none
  Linked (some t) w = (t.key ≡ key) × (t.job ≡ job) × LinkedAt t.phase t w

  -- A step of a handler that owed `n` completions keeps the link, and what it no longer owes is
  -- sent.
  abbrev Pays : ℕ → World → World × Option Task → Type 0
  Pays n w out =
      Linked out.1 out.0 × (completes out.0.sent + owed out.1 out.0 ≡ completes w.sent + n)

  module _ (t : Task) (w : World) (same_key : t.key ≡ key) (same_job : t.job ≡ job) where
    give_up-Pays :
        (w.aborted t.controller ≡ true) × (w.inflight key ≡ none) → Pays 0 w (give_up t w)
    unfolding give_up finish
    give_up-Pays h = ground arith

    settle-none : (settle t w).inflight key ≡ none
    settle-none = ground (arith, str_eq_refl key)

    report-Pays :
        (message : Text) (before : World)
        → w.inflight key ≡ none
        → completes before.sent ≡ completes w.sent
        → Pays 1 before (report_failure message t w)
    unfolding report_failure finish
    report-Pays message before h e = (ground arith, sent_two_plus w.sent _ _ ∙ omega (arith, e))

    begin_done-Pays :
        Early t w → Pays (owed_at searching (w.aborted t.controller)) w (begin_done t w)
    unfolding begin_done
    begin_done-Pays h = ground arith

    search_done-Pays :
        (r : RagResult)
        → Early t w
        → Pays (owed_at searching (w.aborted t.controller)) w (search_done r t w)
    unfolding search_done
    search_done-Pays r h = ground (arith, give_up-Pays, settle-none)

  handle_error-Pays :
      (t : Task) (w : World)
      → t.key ≡ key
      → t.job ≡ job
      → (e : Failure) → Early t w
      → Pays (owed_at searching (w.aborted t.controller)) w (handle_error e t w)
  unfolding handle_error
  handle_error-Pays t w k j e h = ground (
    arith,
    give_up-Pays t w k j,
    settle-none t w k j,
    report-Pays t (settle t w) k j (error_message e) w,
  )

  answer_saved-Pays :
      (t : Task) (w : World)
      → t.key ≡ key
      → t.job ≡ job
      → (m : ChatMode) (r : RagResult) (s : Saved) → w.inflight key ≡ none
      → Pays 1 w (answer_saved m r s t w)
  unfolding answer_saved finish
  answer_saved-Pays t w k j deep r both h = ground arith
  answer_saved-Pays t w k j deep r _ h = ground arith
  answer_saved-Pays t w k j fast r both h = (ground arith, sent_two_plus w.sent _ _ ∙ omega arith)
  answer_saved-Pays t w k j fast r _ h = (ground arith, sent_two_plus w.sent _ _ ∙ omega arith)

  failure_saved-Pays :
      (t : Task) (w : World)
      → t.key ≡ key
      → t.job ≡ job
      → (m : ChatMode) (message : Text) (s : Saved) → w.inflight key ≡ none
      → Pays 1 w (failure_saved m message s t w)
  unfolding failure_saved report_failure finish
  failure_saved-Pays t w k j deep r both h = ground arith
  failure_saved-Pays t w k j deep r _ h = ground arith
  failure_saved-Pays t w k j fast r both h =
      (ground arith, omega (arith, sent_three w.sent (started_to t) (token_to r t) (complete_to t)))
  failure_saved-Pays t w k j fast r _ h =
      (ground arith, omega (arith, sent_three w.sent (started_to t) (token_to r t) (complete_to t)))
