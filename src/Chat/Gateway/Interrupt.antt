-- ===== src/Chat/Gateway/Interrupt.antt =====
-- `handleInterrupt`, to its first await and behind it.
use ragpolyglot_demo.Base.{ℕ, Option, none, some, if◌then◌else◌}
use ragpolyglot_demo.Base.Text.{Text, codes, trim, is_empty}
use ragpolyglot_demo.Shared.Types.{ChatMode, fast, deep}
use ragpolyglot_demo.Chat.Gateway.World.{
  World, Inflight, Saved, chat_interrupt_key, abort, map_delete, emit_to_chat, clear_deep_job,
  store_assistant, store_turn, complete_interrupted,
}

pub data StopPhase : Type 0 where
  saving clearing : StopPhase

-- A suspended interrupt: the query that it ends and the id that the client sent.
pub record Stop : Type 0 where
  pub inflight : Inflight
  pub conversation_id : Text
  pub phase : StopPhase

-- `this.abortControllers.get(key)?.abort()`
abbrev pub abort_key : Option ℕ → World → World
abort_key none w = w
abort_key (some id) w = abort id w

-- `a ?? b`
abbrev either {ℓ} : {A : Type ℓ} → Option A → Option A → Option A
either none b = b
either (some a) b = some a

abbrev forget : Text → Text → World → World
forget deep_key fast_key w = record w {
  controllers = map_delete fast_key (map_delete deep_key w.controllers);
  inflight = map_delete fast_key (map_delete deep_key w.inflight);
}

abbrev stop_of : Option Inflight → Text → Text → Text → World → World × Option Stop
stop_of none id deep_key fast_key w = (w, none)
stop_of (some job) id deep_key fast_key w = (
  forget deep_key fast_key w,
  some (record { inflight = job; conversation_id = id; phase = saving }),
)

-- The handler for a trimmed id that is not empty.
unfoldable pub interrupt : Text → Text → World → World × Option Stop
interrupt client id w =
    let deep_key = chat_interrupt_key deep client id in
    let fast_key = chat_interrupt_key fast client id in
    let w' = abort_key (w.controllers fast_key) (abort_key (w.controllers deep_key) w) in
    stop_of (either (w.inflight deep_key) (w.inflight fast_key)) id deep_key fast_key w'

unfoldable pub handle_interrupt : Text → Option Text → World → World × Option Stop
handle_interrupt client none w = (w, none)
handle_interrupt client (some id) w =
    if is_empty (trim id) then (w, none) else interrupt client (trim id) w

abbrev interrupted : Text
interrupted = codes "(interrupted)"

-- The query was saved with "(interrupted)" for an answer, or could not be.
unfoldable pub stop_saved : ChatMode → Saved → Stop → World → World × Option Stop
stop_saved deep s stop w = (
  clear_deep_job stop.conversation_id
      (store_assistant s stop.inflight.conversation_id interrupted w),
  some (record stop { phase = clearing }),
)
stop_saved fast s stop w = (
  emit_to_chat stop.conversation_id (complete_interrupted stop.conversation_id)
      (store_turn s stop.inflight.conversation_id stop.inflight.query interrupted w),
  none,
)

-- The interrupt is resumed.
unfoldable pub advance_stop : StopPhase → Saved → Stop → World → World × Option Stop
advance_stop saving s stop w = stop_saved stop.inflight.mode s stop w
advance_stop clearing s stop w =
    (emit_to_chat stop.conversation_id (complete_interrupted stop.conversation_id) w, none)
