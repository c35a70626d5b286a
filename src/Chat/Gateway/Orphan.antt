-- ===== src/Chat/Gateway/Orphan.antt =====
-- The `finally` block deletes whatever stands under its key. Where a second query has taken the key
-- over (a deep query sent again after Stop, while the first one is still unwinding), the first
-- handler's end leaves the second one without its entry.
use ragpolyglot_demo.Base.{◌≡◌, true, false, none, arith, is_some}
use ragpolyglot_demo.Base.Text.{Text, str_eq_refl}
use ragpolyglot_demo.Shared.Types.{fast, deep}
use ragpolyglot_demo.Chat.Gateway.World.{World, Inflight, chat_interrupt_key}
use ragpolyglot_demo.Chat.Gateway.Query.{Task, accept, register, finish}
use ragpolyglot_demo.Chat.Gateway.Interrupt.{interrupt}

-- Once one of two deep handlers of a conversation has ended, and no fast query of the client's is
-- registered, an interrupt neither aborts the other handler nor reports anything, and a further
-- deep query is accepted although that handler still runs.
pub finish_orphans :
    (client : Text) (job : Inflight) (ended running : Task) (w : World)
    → job.mode ≡ deep
    → ended.key ≡ chat_interrupt_key deep client job.conversation_id
    → running.key ≡ ended.key
    → w.aborted running.controller ≡ false
    → w.controllers (chat_interrupt_key fast client job.conversation_id) ≡ none
    → w.inflight (chat_interrupt_key fast client job.conversation_id) ≡ none
    → let after = (finish ended w).0 in
      let out = interrupt client job.conversation_id after in
      (out.1 ≡ none)
      × (out.0.aborted running.controller ≡ false)
      × (out.0.sent ≡ w.sent)
      × (is_some (accept client job after).1 ≡ true)
unfolding finish interrupt accept register
finish_orphans client job ended running w m k same alive c i =
    ground (arith, str_eq_refl (chat_interrupt_key deep client job.conversation_id))
