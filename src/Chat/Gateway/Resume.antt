-- ===== src/Chat/Gateway/Resume.antt =====
-- `handleChatQuery` behind its first await: a task is resumed with the reply that it waits for
-- and runs to its next await or to its end.
use ragpolyglot_demo.Base.{true, false, some, [], if◌then◌else◌, or_else}
use ragpolyglot_demo.Base.Text.{Text, codes}
use ragpolyglot_demo.Shared.Number.{Number, whole}
use ragpolyglot_demo.Shared.Types.{ChatMode, fast, deep}
use ragpolyglot_demo.Shared.Records.{RagResult}
use ragpolyglot_demo.Rag.Errors.{Failure, http}
use ragpolyglot_demo.Chat.Gateway.World.{
  World, Saved, only_user, Notice, emit_to_chat, set_deep_job, clear_deep_job, store_assistant,
  store_turn, complete_answer, complete_error,
}
use ragpolyglot_demo.Chat.Gateway.Query.{
  Phase, Task, Reply, Suspended, beginning, queueing, searching, answering, answer_clearing,
  failing, failure_clearing, abort_clearing, wait, finish, settle, is_deep,
}

-- The two early returns on an aborted signal.
unfoldable pub give_up : Task → World → Suspended
give_up t w =
    if t.deep_started
    then wait abort_clearing t (clear_deep_job t.job.conversation_id w)
    else finish t w

abbrev pub error_message : Failure → Text
error_message (http e) = e.message
error_message _ = codes "Sorry, I encountered an error processing your request."

abbrev started_notice : Task → Notice
started_notice t = Notice.started t.job.conversation_id t.job.mode t.job.query

-- The events behind a failure.
unfoldable pub report_failure : Text → Task → World → Suspended
report_failure message t w =
    let id = t.job.conversation_id in
    finish t (emit_to_chat id (complete_error id) (emit_to_chat id (Notice.token message id) w))

-- The `catch` block to its first await; without one, to the end.
unfoldable pub handle_error : Failure → Task → World → Suspended
handle_error e t w =
    if w.aborted t.controller
    then give_up t w
    else if is_deep t.job.mode
    then if t.deep_started
      then wait (failing (error_message e)) t (settle t w)
      else report_failure (error_message e) t (settle t w)
    else wait (failing (error_message e)) t (settle t w)

-- `beginTurn` returned: the job is announced in Redis.
unfoldable pub begin_done : Task → World → Suspended
begin_done t w =
    let id = t.job.conversation_id in
    (
      set_deep_job id (record { query = t.job.query; done = whole 0; total = whole 0 })
          (store_turn only_user id t.job.query [] w),
      some (record t { deep_started = true; phase = queueing }),
    )

-- `streamSearch` calls back: nothing is sent once the signal has fired.
unfoldable pub on_token : Text → Task → World → World
on_token tok t w =
    let id = t.job.conversation_id in
    if w.aborted t.controller then w else emit_to_chat id (Notice.token tok id) w

unfoldable pub on_progress : Number → Number → Task → World → World
on_progress done total t w =
    let id = t.job.conversation_id in
    if w.aborted t.controller
    then w
    else emit_to_chat id (Notice.progress id done total)
        (set_deep_job id (record { query = t.job.query; done = done; total = total }) w)

-- `streamSearch` returned.
unfoldable pub search_done : RagResult → Task → World → Suspended
search_done r t w =
    if w.aborted t.controller then give_up t w else wait (answering r) t (settle t w)

abbrev complete_of : RagResult → Task → Notice
complete_of r t = complete_answer t.job.conversation_id r.sources (some (or_else r.cache_hit false))

-- The answer was saved, or could not be.
unfoldable pub answer_saved : ChatMode → RagResult → Saved → Task → World → Suspended
answer_saved deep r s t w =
    let id = t.job.conversation_id in
    wait (answer_clearing r) t (clear_deep_job id (store_assistant s id r.answer w))
answer_saved fast r s t w =
    let id = t.job.conversation_id in
    finish t (
      emit_to_chat id (complete_of r t)
        (emit_to_chat id (started_notice t) (store_turn s id t.job.query r.answer w)))

-- So was the error message.
unfoldable pub failure_saved : ChatMode → Text → Saved → Task → World → Suspended
failure_saved deep message s t w =
    let id = t.job.conversation_id in
    wait (failure_clearing message) t (clear_deep_job id (store_assistant s id message w))
failure_saved fast message s t w =
    let id = t.job.conversation_id in
    report_failure message t
      (emit_to_chat id (started_notice t) (store_turn s id t.job.query message w))

-- A reply that the phase does not wait for leaves the task suspended.
unfoldable pub advance_from : Phase → Reply → Task → World → Suspended
advance_from beginning Reply.replied t w = begin_done t w
advance_from beginning (Reply.failed e) t w = handle_error e t w
advance_from queueing Reply.replied t w =
    wait searching t (emit_to_chat t.job.conversation_id (started_notice t) w)
advance_from searching (Reply.token tok) t w = (on_token tok t w, some t)
advance_from searching (Reply.progress done total) t w = (on_progress done total t w, some t)
advance_from searching (Reply.found r) t w = search_done r t w
advance_from searching (Reply.failed e) t w = handle_error e t w
advance_from (answering r) (Reply.saved s) t w = answer_saved t.job.mode r s t w
advance_from (answer_clearing r) Reply.replied t w =
    finish t (emit_to_chat t.job.conversation_id (complete_of r t) w)
advance_from (failing message) (Reply.saved s) t w = failure_saved t.job.mode message s t w
advance_from (failure_clearing message) Reply.replied t w = report_failure message t w
advance_from abort_clearing Reply.replied t w = finish t w
advance_from _ _ t w = (w, some t)

unfoldable pub advance : Reply → Task → World → Suspended
advance reply t w = advance_from t.phase reply t w

-- Behind `setDeepJob` in the progress callback: a job set just before an abort is taken back.
unfoldable pub late_check : Task → World → World
late_check t w = if w.aborted t.controller then clear_deep_job t.job.conversation_id w else w
