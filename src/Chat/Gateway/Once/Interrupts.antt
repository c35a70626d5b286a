-- ===== src/Chat/Gateway/Once/Interrupts.antt =====
-- An interrupt takes over the completion of a query that is still searching, and no other.
use mathlib.Core.Path.{subst}
use ragpolyglot_demo.Base.{
  ℕ, ◌+◌, ◌≡◌, refl, ◌∙◌, sym, ap, ◌⊎◌, inl, inr, Bool, true, false, Option, none, some, arith, not,
  ◌||◌,
}
use ragpolyglot_demo.Base.Text.{Text, str_eq_refl}
use ragpolyglot_demo.Shared.Types.{ChatMode, fast, deep}
use ragpolyglot_demo.Chat.Gateway.World.{World, Inflight, chat_interrupt_key}
use ragpolyglot_demo.Chat.Gateway.Query.{
  Phase, Task, beginning, queueing, searching, abort_clearing,
}
use ragpolyglot_demo.Chat.Gateway.Interrupt.{Stop, interrupt}
use ragpolyglot_demo.Chat.Gateway.Solo.{completes}
use ragpolyglot_demo.Chat.Gateway.Once.{Early, Linked, LinkedAt, owed_at, owed}

abbrev pub owed_stop : Option Stop → ℕ
owed_stop none = 0
owed_stop (some _) = 1

abbrev pub other_mode : ChatMode → ChatMode
other_mode deep = fast
other_mode fast = deep

-- No query of the client's stands under the key.
abbrev pub Vacant : Text → World → Type 0
Vacant key w = (w.inflight key ≡ none) × (w.controllers key ≡ none)

module _ (client id : Text) (job : Inflight) where
  abbrev pub key_of : ChatMode → Text
  key_of mode = chat_interrupt_key mode client id

  abbrev Takes : ChatMode → Option Task → World → World × Option Stop → Type 0
  Takes mode task w out =
      Linked (key_of mode) job task out.0
      × (completes out.0.sent ≡ completes w.sent)
      × (owed task out.0 + owed_stop out.1 ≡ owed task w)
      × Vacant (key_of (other_mode mode)) out.0
      × ((out.1 ≡ none) ⊎ (w.inflight (key_of mode) ≡ some job))
      × (out.0.inflight (key_of mode) ≡ none)

  -- The query is found: its signal fires and it is taken away.
  abbrev Found : ChatMode → ℕ → World → World × Option Stop → Type 0
  Found mode c w out =
      (out.0.inflight (key_of mode) ≡ none)
      × (out.0.aborted c ≡ true)
      × (out.0.sent ≡ w.sent)
      × (owed_stop out.1 ≡ 1)
      × Vacant (key_of (other_mode mode)) out.0

  interrupt-Found :
      (mode : ChatMode) (c : ℕ) (w : World)
      → w.inflight (key_of mode) ≡ some job
      → w.controllers (key_of mode) ≡ some c
      → Vacant (key_of (other_mode mode)) w
      → Found mode c w (interrupt client id w)
  unfolding interrupt
  interrupt-Found deep c w i k v = ground (arith, str_eq_refl (chat_interrupt_key deep client id))
  interrupt-Found fast c w i k v = ground (arith, str_eq_refl (chat_interrupt_key fast client id))

  -- No query is found: a controller may still be told to abort.
  abbrev Missed : ChatMode → ℕ → World → World × Option Stop → Type 0
  Missed mode c w out =
      (out.1 ≡ none)
      × (out.0.inflight ≡ w.inflight)
      × (out.0.sent ≡ w.sent)
      × ((out.0.aborted c || not (w.aborted c)) ≡ true)
      × Vacant (key_of (other_mode mode)) out.0

  interrupt-Missed :
      (mode : ChatMode) (c : ℕ) (w : World)
      → w.inflight (key_of mode) ≡ none
      → Vacant (key_of (other_mode mode)) w
      → Missed mode c w (interrupt client id w)
  unfolding interrupt
  interrupt-Missed deep c w i v = ground arith
  interrupt-Missed fast c w i v = ground arith

  Takes-none :
      (mode : ChatMode) (w : World)
      → w.inflight (key_of mode) ≡ none
      → Vacant (key_of (other_mode mode)) w
      → Takes mode none w (interrupt client id w)
  Takes-none mode w i v = let (s, same, sent, a, v') = interrupt-Missed mode 0 w i v in ground arith

  owed_eq :
      (phase : Phase) (t : Task) (w : World) (b : Bool) (n : ℕ)
      → t.phase ≡ phase
      → w.aborted t.controller ≡ b
      → owed_at phase b ≡ n
      → owed (some t) w ≡ n
  owed_eq phase t w b n e a o = ap (owed_at t.phase) a ∙ ap (λ p. owed_at p b) e ∙ o

  module _ (mode : ChatMode) (t : Task) (w : World) (same_key : t.key ≡ key_of mode)
      (same_job : t.job ≡ job) (v : Vacant (key_of (other_mode mode)) w) where
    linked :
        (phase : Phase) (w' : World)
        → t.phase ≡ phase
        → LinkedAt (key_of mode) job phase t w'
        → Linked (key_of mode) job (some t) w'
    linked phase w' e l =
        (same_key, same_job, subst (λ p. LinkedAt (key_of mode) job p t w') (sym e) l)

    Takes-Early :
        (phase : Phase)
        → t.phase ≡ phase
        → owed_at phase true ≡ 0
        → owed_at phase false ≡ 1
        → ((w' : World) → Early (key_of mode) job t w' → LinkedAt (key_of mode) job phase t w')
        → Early (key_of mode) job t w
        → Takes mode (some t) w (interrupt client id w)
    Takes-Early phase e z o l (inl (a, i, c)) =
        let (gone, fired, sent, stop, v') = interrupt-Found mode t.controller w i c v in
        let w' = (interrupt client id w).0 in
        (
          linked phase w' e (l w' (inr (fired, gone))),
          ap completes sent,
          omega (arith, stop, owed_eq phase t w' true 0 e fired z, owed_eq phase t w false 1 e a o),
          v',
          inr i,
          gone,
        )
    Takes-Early phase e z o l (inr (a, i)) =
        let (stop, same, sent, fired, v') = interrupt-Missed mode t.controller w i v in
        let w' = (interrupt client id w).0 in
        let fired' : w'.aborted t.controller ≡ true = ground arith in
        (
          linked phase w' e (l w' (inr (fired', ap (λ m. m (key_of mode)) same ∙ i))),
          ap completes sent,
          omega (
            arith,
            ap owed_stop stop,
            owed_eq phase t w' true 0 e fired' z,
            owed_eq phase t w true 0 e a z,
          ),
          v',
          inl stop,
          ap (λ m. m (key_of mode)) same ∙ i,
        )

    Takes-late :
        (phase : Phase) (n : ℕ)
        → t.phase ≡ phase
        → ((b : Bool) → owed_at phase b ≡ n)
        → w.inflight (key_of mode) ≡ none
        → ((w' : World)
            → w'.inflight (key_of mode) ≡ none
            → (w'.aborted t.controller || not (w.aborted t.controller)) ≡ true
            → LinkedAt (key_of mode) job phase t w')
        → Takes mode (some t) w (interrupt client id w)
    Takes-late phase n e o i l =
        let (stop, same, sent, fired, v') = interrupt-Missed mode t.controller w i v in
        let w' = (interrupt client id w).0 in
        (
          linked phase w' e (l w' (ap (λ m. m (key_of mode)) same ∙ i) fired),
          ap completes sent,
          omega (
            arith,
            ap owed_stop stop,
            owed_eq phase t w' (w'.aborted t.controller) n e refl (o _),
            owed_eq phase t w (w.aborted t.controller) n e refl (o _),
          ),
          v',
          inl stop,
          ap (λ m. m (key_of mode)) same ∙ i,
        )

    Takes-at :
        (phase : Phase)
        → t.phase ≡ phase
        → LinkedAt (key_of mode) job phase t w
        → Takes mode (some t) w (interrupt client id w)
    Takes-at beginning e h = Takes-Early beginning e refl refl (λ w' x. x) h
    Takes-at queueing e h = Takes-Early queueing e refl refl (λ w' x. x) h
    Takes-at searching e h = Takes-Early searching e refl refl (λ w' x. x) h
    Takes-at abort_clearing e h =
        Takes-late abort_clearing 0 e (λ b. refl) h.1 (λ w' i f. (ground arith, i))
    Takes-at phase e h = Takes-late phase 1 e (λ b. refl) h (λ w' i f. i)

  -- In every state an interrupt takes over what the handler owes, or changes nothing of it.
  pub interrupt-Takes :
      (mode : ChatMode) (task : Option Task) (w : World)
      → Linked (key_of mode) job task w
      → Vacant (key_of (other_mode mode)) w
      → Takes mode task w (interrupt client id w)
  interrupt-Takes mode none w h v = Takes-none mode w h v
  interrupt-Takes mode (some t) w (k, j, h) v = Takes-at mode t w k j v t.phase refl h
