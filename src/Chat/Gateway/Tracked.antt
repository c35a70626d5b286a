-- ===== src/Chat/Gateway/Tracked.antt =====
-- A query that an interrupt can find in `inflightQueries` can be aborted: its key has a controller.
use ragpolyglot_demo.Base.{
  ◌≡◌, Bool, true, false, not, ◌||◌, Option, none, some, List, arith, if◌then◌else◌, or_else, [],
  ◌∷◌,
}
use ragpolyglot_demo.Base.Text.{Text, trim, is_empty}
use ragpolyglot_demo.Shared.Json.{Js}
use ragpolyglot_demo.Shared.Types.{ChatMode, fast, deep}
use ragpolyglot_demo.Shared.Records.{RagResult}
use ragpolyglot_demo.Rag.Errors.{Failure}
use ragpolyglot_demo.Chat.Gateway.World.{World, Inflight, Saved, map_has}
use ragpolyglot_demo.Chat.Gateway.Query.{
  ChatQuery, Phase, Task, Reply, register, accept, handle_chat_query, beginning, queueing,
  searching, answering, answer_clearing, failing, failure_clearing, abort_clearing, finish,
}
use ragpolyglot_demo.Chat.Gateway.Resume.{
  give_up, report_failure, handle_error, begin_done, on_token, on_progress, search_done,
  answer_saved, failure_saved, advance_from, advance, late_check,
}
use ragpolyglot_demo.Chat.Gateway.Interrupt.{
  Stop, interrupt, handle_interrupt, advance_stop, stop_saved,
}

abbrev tracked : World → Text → Bool
tracked w k = not (map_has k w.inflight) || map_has k w.controllers

-- Every key of `inflightQueries` is a key of `abortControllers`.
abbrev pub IsTracked : World → Type 0
IsTracked w = (k : Text) → tracked w k ≡ true

IsTracked-if :
    {A : Type 0} (b : Bool) (x y : World × A)
    → IsTracked x.0
    → IsTracked y.0
    → IsTracked (if b then x else y).0
IsTracked-if true x y h k = h
IsTracked-if false x y h k = k

finish-IsTracked : (t : Task) (w : World) → IsTracked w → IsTracked (finish t w).0
unfolding finish
finish-IsTracked t w h k = ground (arith, h k)

give_up-IsTracked : (t : Task) (w : World) → IsTracked w → IsTracked (give_up t w).0
unfolding give_up finish
give_up-IsTracked t w h k = ground (arith, h k)

handle_error-IsTracked :
    (e : Failure) (t : Task) (w : World) → IsTracked w → IsTracked (handle_error e t w).0
unfolding handle_error give_up report_failure finish
handle_error-IsTracked e t w h k = ground (arith, h k)

search_done-IsTracked :
    (r : RagResult) (t : Task) (w : World) → IsTracked w → IsTracked (search_done r t w).0
unfolding search_done give_up finish
search_done-IsTracked r t w h k = ground (arith, h k)

answer_saved-IsTracked :
    (m : ChatMode) (r : RagResult) (s : Saved) (t : Task) (w : World)
    → IsTracked w
    → IsTracked (answer_saved m r s t w).0
unfolding answer_saved finish
answer_saved-IsTracked deep r s t w h k = ground (arith, h k)
answer_saved-IsTracked fast r s t w h k = ground (arith, h k)

failure_saved-IsTracked :
    (m : ChatMode) (e : Text) (s : Saved) (t : Task) (w : World)
    → IsTracked w
    → IsTracked (failure_saved m e s t w).0
unfolding failure_saved report_failure finish
failure_saved-IsTracked deep e s t w h k = ground (arith, h k)
failure_saved-IsTracked fast e s t w h k = ground (arith, h k)

advance_from-IsTracked :
    (phase : Phase) (reply : Reply) (t : Task) (w : World)
    → IsTracked w
    → IsTracked (advance_from phase reply t w).0
unfolding advance_from on_token on_progress begin_done report_failure
advance_from-IsTracked beginning Reply.replied t w h = h
advance_from-IsTracked beginning (Reply.failed e) t w h = handle_error-IsTracked e t w h
advance_from-IsTracked queueing Reply.replied t w h = h
advance_from-IsTracked searching (Reply.token tok) t w h = λ k. ground (arith, h k)
advance_from-IsTracked searching (Reply.progress d n) t w h = λ k. ground (arith, h k)
advance_from-IsTracked searching (Reply.found r) t w h = search_done-IsTracked r t w h
advance_from-IsTracked searching (Reply.failed e) t w h = handle_error-IsTracked e t w h
advance_from-IsTracked (answering r) (Reply.saved s) t w h =
    answer_saved-IsTracked t.job.mode r s t w h
advance_from-IsTracked (answer_clearing r) Reply.replied t w h = finish-IsTracked t _ h
advance_from-IsTracked (failing e) (Reply.saved s) t w h =
    failure_saved-IsTracked t.job.mode e s t w h
advance_from-IsTracked (failure_clearing e) Reply.replied t w h = finish-IsTracked t _ h
advance_from-IsTracked abort_clearing Reply.replied t w h = finish-IsTracked t w h
advance_from-IsTracked _ _ t w h = h

register-IsTracked :
    (key : Text) (job : Inflight) (w : World) → IsTracked w → IsTracked (register key job w).0
unfolding register
register-IsTracked key job w h k = ground (arith, h k)

accept-IsTracked :
    (client : Text) (job : Inflight) (w : World) → IsTracked w → IsTracked (accept client job w).0
unfolding accept register
accept-IsTracked client job w h k = ground (arith, h k)

handle_chat_query-IsTracked :
    (js : Js) (client : Text) (payload : ChatQuery) (fresh : Text) (w : World)
    → IsTracked w
    → IsTracked (handle_chat_query js client payload fresh w).0
unfolding handle_chat_query
handle_chat_query-IsTracked js client payload fresh w h =
    IsTracked-if (is_empty (trim (or_else payload.query []))) _ _ h (accept-IsTracked client _ w h)

advance-IsTracked :
    (reply : Reply) (t : Task) (w : World) → IsTracked w → IsTracked (advance reply t w).0
unfolding advance
advance-IsTracked reply t w h = advance_from-IsTracked t.phase reply t w h

interrupt-IsTracked :
    (client id : Text) (w : World) → IsTracked w → IsTracked (interrupt client id w).0
unfolding interrupt
interrupt-IsTracked client id w h k = ground (arith, h k)

handle_interrupt-IsTracked :
    (client : Text) (id : Option Text) (w : World)
    → IsTracked w
    → IsTracked (handle_interrupt client id w).0
unfolding handle_interrupt
handle_interrupt-IsTracked client none w h = h
handle_interrupt-IsTracked client (some id) w h =
    IsTracked-if (is_empty (trim id)) _ _ h (interrupt-IsTracked client (trim id) w h)

advance_stop-IsTracked :
    (s : Saved) (stop : Stop) (w : World)
    → IsTracked w
    → IsTracked (advance_stop stop.phase s stop w).0
unfolding advance_stop stop_saved
advance_stop-IsTracked s stop w h k = ground (arith, h k)

late_check-IsTracked : (t : Task) (w : World) → IsTracked w → IsTracked (late_check t w)
unfolding late_check
late_check-IsTracked t w h k = ground (arith, h k)

-- Anything that runs between two awaits.
pub data Action : Type 0 where
  ask : Js → Text → ChatQuery → Text → Action
  resume : Reply → Task → Action
  check : Task → Action
  stop : Text → Option Text → Action
  resume_stop : Saved → Stop → Action

unfoldable pub perform : Action → World → World
perform (ask js client payload fresh) w = (handle_chat_query js client payload fresh w).0
perform (resume reply t) w = (advance reply t w).0
perform (check t) w = late_check t w
perform (stop client id) w = (handle_interrupt client id w).0
perform (resume_stop s st) w = (advance_stop st.phase s st w).0

perform-IsTracked : (a : Action) (w : World) → IsTracked w → IsTracked (perform a w)
unfolding perform
perform-IsTracked (ask js client payload fresh) w h =
    handle_chat_query-IsTracked js client payload fresh w h
perform-IsTracked (resume reply t) w h = advance-IsTracked reply t w h
perform-IsTracked (check t) w h = late_check-IsTracked t w h
perform-IsTracked (stop client id) w h = handle_interrupt-IsTracked client id w h
perform-IsTracked (resume_stop s st) w h = advance_stop-IsTracked s st w h

unfoldable pub perform_all : List Action → World → World
perform_all [] w = w
perform_all (a ∷ as') w = perform_all as' (perform a w)

-- Whatever the handlers do, of any number of queries and interrupts and in any interleaving, every
-- key of `inflightQueries` is a key of `abortControllers`, if it is so at the start: a query that an
-- interrupt finds can be aborted.
pub perform_all-IsTracked :
    (actions : List Action) (w : World) → IsTracked w → IsTracked (perform_all actions w)
unfolding perform_all
perform_all-IsTracked [] w h = h
perform_all-IsTracked (a ∷ as') w h =
    perform_all-IsTracked as' (perform a w) (perform-IsTracked a w h)
