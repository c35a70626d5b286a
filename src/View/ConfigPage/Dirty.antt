-- ===== src/View/ConfigPage/Dirty.antt =====
-- What is unsaved on the page.
use ragpolyglot_demo.Base.{
  subst, sym, ◌≡◌, refl, ap, ◌∙◌, Bool, true, false, Option, none, some, List, [], ◌∷◌, ◌⊎◌, inl,
  inr, arith, ◌||◌, Bool-cases, if◌then◌else◌,
}
use ragpolyglot_demo.Base.Text.{Text, str_eq, str_eq_iff, str_eq_refl}
use ragpolyglot_demo.Base.Dict.{Dict, lookup, insert, NodupKeys, insert-NodupKeys}
use ragpolyglot_demo.Config.Runtime.{RuntimeConfigSetting, RuntimeConfig, RuntimeConfigUpdate}
use ragpolyglot_demo.View.ConfigPage.{
  settings_of, saved_values, on_loaded, discard, save, on_copied, ConfigPage, PageError, same_text,
  dirty_values, values_from, dirty, apply_payload, on_saved, set_value, none_dirty,
}

-- The value of a key that is unsaved.
abbrev pub unsaved : Option Text → Option Text → Option Text
unsaved none saved = none
unsaved (some value) saved = if same_text saved value then none else some value

dirty-step :
    (b same : Bool) (k j v : Text) (out : Dict Text) (saved : Option Text)
    → str_eq k j ≡ b
    → same_text saved v ≡ same
    → (b ≡ true → lookup k out ≡ none)
    → lookup k (if same then out else (j, v) ∷ out)
      ≡ (if b then unsaved (some v) saved else lookup k out)
unfolding lookup
dirty-step true true k j v out saved e f n = rw f (n refl)
dirty-step true false k j v out saved e f n = rw (e, f) refl
dirty-step false true k j v out saved e f n = refl
dirty-step false false k j v out saved e f n = rw e refl

unsaved-if :
    (b : Bool) (v : Text) (rest saved : Option Text)
    → (if b then unsaved (some v) saved else unsaved rest saved)
      ≡ unsaved (if b then some v else rest) saved
unsaved-if true v rest saved = refl
unsaved-if false v rest saved = refl

lookup-dirty_values :
    (k : Text) (draft saved : Dict Text)
    → NodupKeys draft
    → lookup k (dirty_values draft saved) ≡ unsaved (lookup k draft) (lookup k saved)
unfolding lookup dirty_values
lookup-dirty_values k [] saved n = refl
lookup-dirty_values k ((j, v) ∷ draft) saved n = elim (Bool-cases (str_eq k j)) [
  | inl e ↦
      let p = (str_eq_iff k j).0 e in
      let none_here : lookup k (dirty_values draft saved) ≡ none =
        lookup-dirty_values k draft saved n.1
        ∙ ap (λ o. unsaved o (lookup k saved)) (ap (λ i. lookup i draft) p ∙ n.0) in
      ap
        (λ o.
          lookup k
            (if same_text o v then dirty_values draft saved else (j, v) ∷ dirty_values draft saved))
        (ap (λ i. lookup i saved) (sym p))
      ∙ dirty-step true (same_text (lookup k saved) v) k j v (dirty_values draft saved)
          (lookup k saved) e refl (λ _. none_here)
      ∙ rw e refl
  | inr e ↦
      dirty-step false (same_text (lookup j saved) v) k j v (dirty_values draft saved)
        (lookup j saved) e refl (λ t. cc t)
      ∙ lookup-dirty_values k draft saved n.1
      ∙ rw e refl
]

dirty_values_self :
    (out saved : Dict Text)
    → ((k v : Text) → lookup k out ≡ some v → lookup k saved ≡ some v)
    → NodupKeys out
    → dirty_values out saved ≡ []
unfolding dirty_values lookup
dirty_values_self [] saved h n = refl
dirty_values_self ((j, v) ∷ out) saved h n =
    let here : lookup j saved ≡ some v = h j v (rw (str_eq_refl j) refl) in
    rw (here, str_eq_refl v)
      (dirty_values_self out saved
        (λ k w e. elim (Bool-cases (str_eq k j)) [
          | inl same ↦ cc (ap (λ i. lookup i out) ((str_eq_iff k j).0 same), e, n.0)
          | inr other ↦ h k w (rw other e)
        ])
        n.1)

-- What happens on the page.
pub data PageEvent : Type 0 where
  loaded : PageError ⊎ RuntimeConfig → PageEvent
  edited : Text → Text → PageEvent
  discarded save_clicked : PageEvent
  saved : PageError ⊎ RuntimeConfigUpdate → PageEvent
  copied : Bool → PageEvent

unfoldable pub handle : PageEvent → ConfigPage → ConfigPage
handle (loaded reply) p = on_loaded reply p
handle (edited key value) p = set_value key value p
handle discarded p = discard p
handle save_clicked p = (save p).0
handle (saved reply) p = on_saved reply p
handle (copied ok) p = on_copied ok p

unfoldable pub handle_all : List PageEvent → ConfigPage → ConfigPage
handle_all [] p = p
handle_all (e ∷ es) p = handle_all es (handle e p)

values_from-NodupKeys :
    (out : Dict Text) (ss : List RuntimeConfigSetting)
    → NodupKeys out
    → NodupKeys (values_from out ss)
unfolding values_from
values_from-NodupKeys out [] n = n
values_from-NodupKeys out (s ∷ ss) n =
    values_from-NodupKeys (insert s.key s.value out) ss (insert-NodupKeys s.key s.value out n)

save-draft : (p : ConfigPage) → (save p).0.draft ≡ p.draft
unfolding save
save-draft p = ground arith

copied-draft : (ok : Bool) (p : ConfigPage) → (on_copied ok p).draft ≡ p.draft
unfolding on_copied
copied-draft ok p = ground arith

handle-NodupKeys :
    (e : PageEvent) (p : ConfigPage) → NodupKeys p.draft → NodupKeys (handle e p).draft
unfolding handle on_loaded set_value discard on_saved on_copied apply_payload
handle-NodupKeys (loaded (inl e)) p n = n
handle-NodupKeys (loaded (inr payload)) p n = values_from-NodupKeys [] payload.settings tt
handle-NodupKeys (edited key value) p n = insert-NodupKeys key value p.draft n
handle-NodupKeys discarded p n = values_from-NodupKeys [] (settings_of p.config) tt
handle-NodupKeys save_clicked p n = subst NodupKeys (sym (save-draft p)) n
handle-NodupKeys (saved (inl e)) p n = n
handle-NodupKeys (saved (inr payload)) p n = values_from-NodupKeys [] payload.settings tt
handle-NodupKeys (copied ok) p n = subst NodupKeys (sym (copied-draft ok p)) n

handle_all_keeps :
    (es : List PageEvent) (p : ConfigPage) → NodupKeys p.draft → NodupKeys (handle_all es p).draft
unfolding handle_all
handle_all_keeps [] p n = n
handle_all_keeps (e ∷ es) p n = handle_all_keeps es (handle e p) (handle-NodupKeys e p n)

-- The page before it has loaded.
abbrev pub opened : ConfigPage
opened = record {
  config = none;
  draft = [];
  loading = true;
  saving = false;
  error = none;
  result = none;
  copied = false;
}

values-clean :
    (ss : List RuntimeConfigSetting) → dirty_values (values_from [] ss) (values_from [] ss) ≡ []
values-clean ss =
    dirty_values_self (values_from [] ss) (values_from [] ss) (λ k v e. e)
      (values_from-NodupKeys [] ss tt)

-- The value that is sent for a key.
abbrev pub sent_value : Text → Option (Dict Text) → Option Text
sent_value k none = none
sent_value k (some values) = lookup k values

save_if-sends :
    (k : Text) (saving : Bool) (values : Dict Text) (p q : ConfigPage)
    → sent_value k
        (if◌then◌else◌ {A = ConfigPage × Option (Dict Text)}
          (none_dirty values || saving)
          (p, none)
          (q, some values)).1
      ≡ (if saving then none else lookup k values)
unfolding lookup
save_if-sends k true [] p q = refl
save_if-sends k false [] p q = refl
save_if-sends k true (e ∷ es) p q = refl
save_if-sends k false (e ∷ es) p q = refl

save-sends :
    (k : Text) (p : ConfigPage)
    → sent_value k (save p).1 ≡ (if p.saving then none else lookup k (dirty p))
unfolding save
save-sends k p = save_if-sends k p.saving (dirty p) p _

save-clean : (p : ConfigPage) → dirty p ≡ [] → (save p).1 ≡ none
unfolding save
save-clean p h = rw h refl

-- After any events on the page, a save sends, for each key, the value of the draft if it differs
-- from the one that was read last and nothing if not, and sends nothing at all while a save is under
-- way; and once the gateway has accepted a save, or the draft is discarded, nothing is left to send.
pub save-handle_all :
    (es : List PageEvent) (k : Text) (payload : RuntimeConfigUpdate)
    → (sent_value k (save (handle_all es opened)).1 ≡ (
        if (handle_all es opened).saving
        then none
        else unsaved
            (lookup k (handle_all es opened).draft)
            (lookup k (saved_values (handle_all es opened)))))
      × ((save (on_saved (inr payload) (handle_all es opened))).1 ≡ none)
      × ((save (discard (handle_all es opened))).1 ≡ none)
save-handle_all es k payload =
    let p = handle_all es opened in
    (
      save-sends k p
          ∙ ap (λ o. if p.saving then none else o)
              (lookup-dirty_values k p.draft (saved_values p) (handle_all_keeps es opened tt)),
      save-clean (on_saved (inr payload) p)
          (unfold on_saved apply_payload in values-clean payload.settings),
      save-clean (discard p) (unfold discard in values-clean (settings_of p.config)),
    )
