-- ===== src/Chat/Gateway/Once/Play.antt =====
-- Every accepted query is completed exactly once, in any interleaving.
use ragpolyglot_demo.Base.{
  ℕ, ◌+◌, ◌≡◌, refl, ◌∙◌, ap, ◌⊎◌, inl, inr, Bool, false, Option, none, some, List, [], ◌∷◌, arith,
  ◌&&◌,
}
use ragpolyglot_demo.Base.Text.{Text, str_eq, str_eq_refl}
use ragpolyglot_demo.Shared.Types.{ChatMode, fast, deep}
use ragpolyglot_demo.Chat.Gateway.World.{
  map_has, World, Inflight, Saved, chat_interrupt_key, chat_room, complete_interrupted, to_room,
}
use ragpolyglot_demo.Chat.Gateway.Query.{
  accept, first_phase, join, is_deep, Phase, Task, Reply, register, beginning, queueing, searching,
  abort_clearing,
}
use ragpolyglot_demo.Chat.Gateway.Shrinks.{Shrinks, advance-Shrinks}
use ragpolyglot_demo.Chat.Gateway.Interrupt.{Stop, interrupt, advance_stop, stop_saved}
use ragpolyglot_demo.Chat.Gateway.Solo.{
  Solo, Move, replied, interrupted, stop_replied, resume, resume_stop, move, play, begin, completes,
  either,
}
use ragpolyglot_demo.Chat.Gateway.Once.{Early, LinkedAt, Linked, owed, owed_at, sent_one}
use ragpolyglot_demo.Chat.Gateway.Once.Steps.{resume-Pays}
use ragpolyglot_demo.Chat.Gateway.Once.Interrupts.{owed_stop, other_mode, Vacant, interrupt-Takes}

module _ (client : Text) (job : Inflight) (n : ℕ) where
  abbrev key : Text
  key = chat_interrupt_key job.mode client job.conversation_id

  abbrev other : Text
  other = chat_interrupt_key (other_mode job.mode) client job.conversation_id

  -- What is sent and what is still owed makes one completion behind the first `n`.
  abbrev IsOnce : Solo → Type 0
  IsOnce s =
      Linked key job s.task s.world
      × Vacant other s.world
      × (completes s.world.sent + owed s.task s.world + owed_stop s.stop ≡ n + 1)
      × ((s.stop ≡ none) ⊎ (s.world.inflight key ≡ none))

  resume-Shrinks :
      (k : Text) (reply : Reply) (task : Option Task) (w : World)
      → Shrinks k w (resume reply task w).0
  resume-Shrinks k reply none w = ground arith
  resume-Shrinks k reply (some t) w = advance-Shrinks k reply t w

  LinkedAt-same :
      (phase : Phase) (t : Task) (w w' : World)
      → (w'.inflight ≡ w.inflight) × (w'.controllers ≡ w.controllers) × (w'.aborted ≡ w.aborted)
      → LinkedAt key job phase t w
      → LinkedAt key job phase t w'
  LinkedAt-same beginning t w w' (i, c, a) h = rw (i, c, a) h
  LinkedAt-same queueing t w w' (i, c, a) h = rw (i, c, a) h
  LinkedAt-same searching t w w' (i, c, a) h = rw (i, c, a) h
  LinkedAt-same abort_clearing t w w' (i, c, a) h = rw (i, a) h
  LinkedAt-same _ t w w' (i, c, a) h = rw i h

  stop_same :
      (s : Saved) (stop : Option Stop) (w : World)
      → let w' = (resume_stop s stop w).0 in
        (w'.inflight ≡ w.inflight) × (w'.controllers ≡ w.controllers) × (w'.aborted ≡ w.aborted)
  unfolding advance_stop stop_saved
  stop_same s none w = (refl, refl, refl)
  stop_same s (some stop) w = ground arith

  Linked-same :
      (task : Option Task) (w w' : World)
      → (w'.inflight ≡ w.inflight) × (w'.controllers ≡ w.controllers) × (w'.aborted ≡ w.aborted)
      → Linked key job task w
      → Linked key job task w'
  Linked-same none w w' (i, c, a) h = rw i h
  Linked-same (some t) w w' e (k, j, h) = (k, j, LinkedAt-same t.phase t w w' e h)

  owed_same :
      (task : Option Task) (w w' : World) → w'.aborted ≡ w.aborted → owed task w' ≡ owed task w
  owed_same none w w' a = refl
  owed_same (some t) w w' a = ap (λ f. owed_at t.phase (f t.controller)) a

  owed_either :
      (x y : Option Stop)
      → (x ≡ none) ⊎ (y ≡ none)
      → owed_stop (either x y) ≡ owed_stop x + owed_stop y
  owed_either none y h = omega arith
  owed_either (some x) none h = refl
  owed_either (some x) (some y) h = ground arith

  stop_pays :
      (s : Saved) (stop : Option Stop) (w : World)
      → let out = resume_stop s stop w in
        completes out.0.sent + owed_stop out.1 ≡ completes w.sent + owed_stop stop
  unfolding advance_stop stop_saved
  stop_pays s none w = refl
  stop_pays s (some stop) w = ground (
    arith,
    sent_one w.sent
        (to_room (chat_room stop.conversation_id) (complete_interrupted stop.conversation_id)),
  )

  resumed-IsOnce :
      (reply : Reply) (s : Solo)
      → IsOnce s
      → IsOnce (move client job.conversation_id (replied reply) s)
  unfolding move
  resumed-IsOnce reply s (l, v, b, o) =
      let (l', p) = resume-Pays key job reply s.task s.world l in
      let w' = (resume reply s.task s.world).0 in
      let sk = resume-Shrinks key reply s.task s.world in
      let so = resume-Shrinks other reply s.task s.world in
      (l', ground arith, omega (arith, p, b), ground arith)

  stopped-IsOnce :
      (a : Saved) (s : Solo)
      → IsOnce s
      → IsOnce (move client job.conversation_id (stop_replied a) s)
  unfolding move
  stopped-IsOnce a s (l, v, b, o) =
      let w' = (resume_stop a s.stop s.world).0 in
      let e' = stop_same a s.stop s.world in
      (
        Linked-same s.task s.world w' e' l,
        (rw (e'.0, e'.1) v),
        omega (arith, b, stop_pays a s.stop s.world, owed_same s.task s.world w' e'.2),
        elim o [
          | inl e ↦ inl (ap (λ st. (resume_stop a st s.world).1) e)
          | inr e ↦ inr (ap (λ m. m key) e'.0 ∙ e)
        ],
      )

  interrupted-IsOnce :
      (s : Solo) → IsOnce s → IsOnce (move client job.conversation_id interrupted s)
  unfolding move
  interrupted-IsOnce s (l, v, b, o) =
      let (l', c, p, v', found, gone) =
        interrupt-Takes client job.conversation_id job job.mode s.task s.world l v in
      let out = interrupt client job.conversation_id s.world in
      (l', v', omega (arith, b, p, c, owed_either out.1 s.stop (ground arith)), inr gone)

  move-IsOnce : (m : Move) (s : Solo) → IsOnce s → IsOnce (move client job.conversation_id m s)
  move-IsOnce (replied reply) s h = resumed-IsOnce reply s h
  move-IsOnce interrupted s h = interrupted-IsOnce s h
  move-IsOnce (stop_replied a) s h = stopped-IsOnce a s h

  play-IsOnce :
      (ms : List Move) (s : Solo) → IsOnce s → IsOnce (play client job.conversation_id ms s)
  unfolding play
  play-IsOnce [] s h = h
  play-IsOnce (m ∷ ms) s h =
      play-IsOnce ms (move client job.conversation_id m s) (move-IsOnce m s h)

Early-first :
    (entry : Text) (job : Inflight) (mode : ChatMode) (t : Task) (w : World)
    → Early entry job t w
    → LinkedAt entry job (first_phase mode) t w
Early-first entry job deep t w h = h
Early-first entry job fast t w h = h

owed_first : (mode : ChatMode) (b : Bool) → b ≡ false → owed_at (first_phase mode) b ≡ 1
owed_first deep b h = rw h
owed_first fast b h = rw h

register-IsOnce :
    (client : Text) (job : Inflight) (w : World)
    → w.aborted w.next_controller ≡ false
    → Vacant (other client job 0) w
    → str_eq (other client job 0) (key client job 0) ≡ false
    → let out = register (key client job 0) job w in
      IsOnce client job (completes w.sent) (record { world = out.0; task = out.1; stop = none })
unfolding register
register-IsOnce client job w a v d =
    let k = chat_interrupt_key job.mode client job.conversation_id in
    let self = str_eq_refl k in
    (
      (refl, refl, Early-first k job job.mode _ _ (inl (a, rw self, rw self))),
      rw d v,
      omega (arith, owed_first job.mode _ a),
      inl refl,
    )

begin-IsOnce :
    (client : Text) (job : Inflight) (w : World)
    → w.aborted w.next_controller ≡ false
    → is_deep job.mode && map_has (key client job 0) w.controllers ≡ false
    → Vacant (other client job 0) w
    → str_eq (other client job 0) (key client job 0) ≡ false
    → IsOnce client job (completes w.sent) (begin client job w)
unfolding begin accept
begin-IsOnce client job w a free v d =
    rw free (register-IsOnce client job (join client (chat_room job.conversation_id) w) a v d)

-- A query that is accepted, with a signal that has not fired and no query of the other mode beside
-- it, is completed exactly once: when its handler and the interrupts of its client have run to their
-- ends, one `chat:complete` more has been sent to a room, whatever the replies of the search, the
-- database and Redis were, however many interrupts came, and in whatever order.
pub query_completed_once :
    (client : Text) (job : Inflight) (w : World) (moves : List Move)
    → w.aborted w.next_controller ≡ false
    → is_deep job.mode
        && map_has (chat_interrupt_key job.mode client job.conversation_id) w.controllers
      ≡ false
    → Vacant (chat_interrupt_key (other_mode job.mode) client job.conversation_id) w
    → str_eq
        (chat_interrupt_key (other_mode job.mode) client job.conversation_id)
        (chat_interrupt_key job.mode client job.conversation_id)
      ≡ false
    → (play client job.conversation_id moves (begin client job w)).task ≡ none
    → (play client job.conversation_id moves (begin client job w)).stop ≡ none
    → completes (play client job.conversation_id moves (begin client job w)).world.sent
      ≡ completes w.sent + 1
query_completed_once client job w moves a free v d ended stopped =
    let s = play client job.conversation_id moves (begin client job w) in
    let invariant =
      play-IsOnce client job (completes w.sent) moves (begin client job w)
        (begin-IsOnce client job w a free v d) in
    omega (arith, invariant.2, ap (λ t. owed t s.world) ended, ap owed_stop stopped)
