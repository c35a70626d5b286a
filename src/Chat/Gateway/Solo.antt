-- ===== src/Chat/Gateway/Solo.antt =====
-- One query and the interrupts of its conversation, in any interleaving: the handler's replies, the
-- interrupts and their continuations come in any order.
use ragpolyglot_demo.Base.{ℕ, ◌+◌, Option, none, some, List, [], ◌∷◌}
use ragpolyglot_demo.Base.Text.{Text}
use ragpolyglot_demo.Chat.Gateway.World.{World, Inflight, Saved, Emission, to_room, Notice}
use ragpolyglot_demo.Chat.Gateway.Query.{Task, Reply, accept}
use ragpolyglot_demo.Chat.Gateway.Resume.{advance}
use ragpolyglot_demo.Chat.Gateway.Interrupt.{Stop, interrupt, advance_stop}

-- The world with the query's handler and the interrupt that took it over, where they still run.
pub record Solo : Type 0 where
  pub world : World
  pub task : Option Task
  pub stop : Option Stop

abbrev pub resume : Reply → Option Task → World → World × Option Task
resume reply none w = (w, none)
resume reply (some t) w = advance reply t w

abbrev pub resume_stop : Saved → Option Stop → World → World × Option Stop
resume_stop s none w = (w, none)
resume_stop s (some stop) w = advance_stop stop.phase s stop w

-- A reply to the handler, an interrupt of the conversation or a reply to an interrupt.
pub data Move : Type 0 where
  replied : Reply → Move
  interrupted : Move
  stop_replied : Saved → Move

abbrev pub either {ℓ} : {A : Type ℓ} → Option A → Option A → Option A
either none b = b
either (some a) b = some a

-- One move; the interrupts come from the client that asked.
unfoldable pub move : Text → Text → Move → Solo → Solo
move client id (replied reply) s =
    let next = resume reply s.task s.world in record s { world = next.0; task = next.1 }
move client id interrupted s =
    let next = interrupt client id s.world in
    record s { world = next.0; stop = either next.1 s.stop }
move client id (stop_replied saved) s =
    let next = resume_stop saved s.stop s.world in record s { world = next.0; stop = next.1 }

unfoldable pub play : Text → Text → List Move → Solo → Solo
unfolding move
play client id [] s = s
play client id (m ∷ ms) s = play client id ms (move client id m s)

-- The query arrives: its handler runs to its first await, unless it is rejected.
unfoldable pub begin : Text → Inflight → World → Solo
begin client job w =
    let next = accept client job w in record { world = next.0; task = next.1; stop = none }

abbrev pub is_complete : Emission → ℕ
is_complete (to_room _ (Notice.complete _)) = 1
is_complete _ = 0

-- How often `chat:complete` was sent to a room.
unfoldable pub completes : List Emission → ℕ
completes [] = 0
completes (e ∷ es) = is_complete e + completes es
