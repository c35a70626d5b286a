-- ===== src/Config/Runtime/Updates.antt =====
-- The loops of `updateConfig`: what the body is read to, and what of it changes the file.
use ragpolyglot_demo.Base.{
  subst, ◌≡◌, refl, ap, ◌∙◌, Bool, true, false, Option, none, some, List, [], ◌∷◌, inl, inr, arith,
  Bool-cases, if◌then◌else◌, or_option,
}
use ragpolyglot_demo.Base.Text.{Text, str_eq, str_eq_iff}
use ragpolyglot_demo.Base.Order.{set_from}
use ragpolyglot_demo.Base.Dict.{
  Dict, lookup, insert, lookup-insert, NodupKeys, insert-NodupKeys, AllEntries, insert-AllEntries,
  all_entries,
}
use ragpolyglot_demo.Shared.Json.{Json, Js, Fields}
use ragpolyglot_demo.Shared.Number.{Number}
use ragpolyglot_demo.Config.EnvFile.Format.{is_plain_key, is_plain_value}
use ragpolyglot_demo.Config.EnvFile.Merge.{IsPlain, insert-IsPlain}
use ragpolyglot_demo.Config.Settings.{ConfigSetting, config_setting_by_key}
use ragpolyglot_demo.Config.Settings.Laws.{setting-named}
use ragpolyglot_demo.Config.Host.{Reply, Host}
use ragpolyglot_demo.Config.Runtime.{
  Updates, chain, normalize_value, view_value, effective_value, allowed, collect, select_changed,
}

chain-inr :
    {A B : Type 0}
    → (r : Reply A) (f : A → Reply B) (b : B) → chain r f ≡ inr b
    → (a : A) × (r ≡ inr a) × (f a ≡ inr b)
chain-inr (inl e) f b h = cc
chain-inr (inr a) f b h = (a, refl, h)

module _ (js : Js) (to_number : Text → Number) (h : Host) where
  -- A value that stands for a setting of the table, and is normalised.
  abbrev pub IsUpdate : Text → Text × ConfigSetting → Type 0
  IsUpdate k (v, s) =
      (lookup k config_setting_by_key ≡ some s)
      × (raw : Json) × (normalize_value js to_number s raw ≡ inr v)

  allowed-inr :
      (k : Text) (o : Option ConfigSetting) (s : ConfigSetting)
      → allowed js to_number h k o ≡ inr s
      → o ≡ some s
  allowed-inr k none s e = cc
  allowed-inr k (some t) s e = cc

  pub collect-IsUpdate :
      (fields : Fields) (acc updates : Updates)
      → AllEntries IsUpdate acc
      → NodupKeys acc
      → collect js to_number h fields acc ≡ inr updates
      → AllEntries IsUpdate updates × NodupKeys updates
  unfolding collect
  collect-IsUpdate Fields.end acc updates a n e =
      let same : acc ≡ updates = cc e in
      (subst (AllEntries IsUpdate) same a, subst NodupKeys same n)
  collect-IsUpdate (Fields.field key raw rest) acc updates a n e =
      let (s, f, e') =
        chain-inr (allowed js to_number h key (lookup key config_setting_by_key)) _ updates e in
      let (v, g, e'') = chain-inr (normalize_value js to_number s raw) _ updates e' in
      collect-IsUpdate rest (insert key (v, s) acc) updates
        (insert-AllEntries IsUpdate key (v, s) acc (allowed-inr key _ s f, raw, g) a)
        (insert-NodupKeys key (v, s) acc n) e''

  module _ (prev_map : Dict Text) where
    -- Whether an update does not change what is shown.
    abbrev pub same_value : Text → Text → ConfigSetting → Bool
    same_value k v s =
        str_eq (view_value js to_number s (effective_value js to_number h k prev_map)) v

    -- The value that is written for a key.
    abbrev pub changed_value : Text → Option (Text × ConfigSetting) → Option Text
    changed_value k none = none
    changed_value k (some (v, s)) = if same_value k v s then none else some v

    lookup-accept :
        (b : Bool) (k j v : Text) (ss : List Text) (acc : Dict Text × List Text)
        → lookup k (if b then acc else (insert j v acc.0, ss)).0
          ≡ (if b then lookup k acc.0 else if str_eq k j then some v else lookup k acc.0)
    lookup-accept true k j v ss acc = refl
    lookup-accept false k j v ss acc = lookup-insert k j v acc.0

    here :
        (b : Bool) (v : Text) (old : Option Text)
        → (if b then old else some v) ≡ or_option (if b then none else some v) old
    here true v old = refl
    here false v old = refl

    elsewhere : (b : Bool) (o : Option Text) → (if b then o else o) ≡ o
    elsewhere true o = refl
    elsewhere false o = refl

    -- The update of one entry, in front of those of the rest.
    changed-step :
        (k j v : Text) (s : ConfigSetting) (rest : Updates) (old : Option Text)
        → lookup j rest ≡ none
        → or_option
            (changed_value k (lookup k rest))
            (if same_value j v s then old else if str_eq k j then some v else old)
          ≡ or_option (changed_value k (if str_eq k j then some (v, s) else lookup k rest)) old
    changed-step k j v s rest old n = elim (Bool-cases (str_eq k j)) [
      | inl e ↦
          let p = (str_eq_iff k j).0 e in
          rw (e, ap (λ t. lookup t rest) p ∙ n, ap (λ t. same_value t v s) p)
            (here (same_value j v s) v old)
      | inr e ↦
          rw e (ap (or_option (changed_value k (lookup k rest))) (elsewhere (same_value j v s) old))
    ]

    pub lookup-select_changed :
        (k : Text) (u : Updates) (acc : Dict Text × List Text)
        → NodupKeys u
        → lookup k (select_changed js to_number h prev_map u acc).0
          ≡ or_option (changed_value k (lookup k u)) (lookup k acc.0)
    unfolding select_changed lookup
    lookup-select_changed k [] acc n = refl
    lookup-select_changed k ((j, (v, s)) ∷ rest) acc n =
        lookup-select_changed k rest _ n.1
        ∙ ap (or_option (changed_value k (lookup k rest)))
            (lookup-accept (same_value j v s) k j v (set_from acc.1 s.services) acc)
        ∙ changed-step k j v s rest (lookup k acc.0) n.0

    accept-keeps :
        (b : Bool) (j v : Text) (ss : List Text) (acc : Dict Text × List Text)
        → is_plain_key j ≡ true
        → is_plain_value v ≡ true
        → IsPlain acc.0 × NodupKeys acc.0
        → IsPlain (if b then acc else (insert j v acc.0, ss)).0
          × NodupKeys (if b then acc else (insert j v acc.0, ss)).0
    accept-keeps true j v ss acc p q o = o
    accept-keeps false j v ss acc p q o =
        (insert-IsPlain j v acc.0 p q o.0, insert-NodupKeys j v acc.0 o.1)

    pub select_changed-keeps :
        (u : Updates) (acc : Dict Text × List Text)
        → AllEntries IsUpdate u
        → all_entries (λ k e. is_plain_value e.0) u ≡ true
        → IsPlain acc.0 × NodupKeys acc.0
        → IsPlain (select_changed js to_number h prev_map u acc).0
          × NodupKeys (select_changed js to_number h prev_map u acc).0
    unfolding select_changed
    select_changed-keeps [] acc a q o = o
    select_changed-keeps ((j, (v, s)) ∷ rest) acc a q o =
        select_changed-keeps rest _ a.1 (ground (arith, q)) (
          accept-keeps (same_value j v s) j v (set_from acc.1 s.services) acc
            (setting-named j s a.0.0).1 (ground (arith, q)) o)
