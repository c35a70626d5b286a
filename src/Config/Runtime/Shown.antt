-- ===== src/Config/Runtime/Shown.antt =====
-- What the settings show once `updateConfig` has written the file.
use ragpolyglot_demo.Base.{
  ◌≤◌, ◌≡◌, refl, sym, ap, ◌∙◌, subst, Bool, true, ◌&&◌, not, Option, none, some, List, [], ◌∷◌,
  inl, inr, arith, Bool-cases, if◌then◌else◌, or_else, or_option, or_option-none,
}
use ragpolyglot_demo.Base.Text.{Text, str_eq_iff}
use ragpolyglot_demo.Base.Dict.{
  Dict, lookup, AllEntries, lookup-AllEntries, all_entries, lookup-all_entries,
}
use ragpolyglot_demo.Shared.Json.{Json, Js, Fields}
use ragpolyglot_demo.Shared.Number.{Number}
use ragpolyglot_demo.Config.EnvFile.{lines, parse_env_assignments, merge_env_file}
use ragpolyglot_demo.Config.EnvFile.Format.{is_plain_value}
use ragpolyglot_demo.Config.EnvFile.Merge.{times}
use ragpolyglot_demo.Config.EnvFile.Merge.RoundTrip.{lookup-merge_env_file}
use ragpolyglot_demo.Config.Settings.{ConfigSetting, config_setting_by_key}
use ragpolyglot_demo.Config.Host.{Host, Files}
use ragpolyglot_demo.Config.Runtime.Failed.{IsWritable, put-same}
use ragpolyglot_demo.Config.Runtime.{
  Updates, view_value, env_path, effective_value, shown_value, collect, select_changed,
  apply_changed, update_with, update_config,
}
use ragpolyglot_demo.Config.Runtime.Values.{IsPrinting, blank_bool, view_value-normalize}
use ragpolyglot_demo.Config.Runtime.Updates.{
  IsUpdate, collect-IsUpdate, same_value, changed_value, lookup-select_changed,
  select_changed-keeps,
}

-- A value with nothing to escape and no line break, and not blank for a boolean.
abbrev pub is_writable : Text → Text × ConfigSetting → Bool
is_writable k (v, s) = is_plain_value v && not (blank_bool s v)

-- The new value of a key.
abbrev pub value_for : Option (Text × ConfigSetting) → Option Text
value_for none = none
value_for (some (v, s)) = some v

settled_plain :
    (u : Updates)
    → all_entries is_writable u ≡ true
    → all_entries (λ k e. is_plain_value e.0) u ≡ true
settled_plain [] q = refl
settled_plain ((k, (v, s)) ∷ u) q = ground (arith, q, settled_plain u)

module _ (js : Js) (to_number : Text → Number) (h : Host) where
  abbrev changes : Text → Updates → Dict Text × List Text
  changes content updates =
      select_changed js to_number h (parse_env_assignments content) updates ([], [])

  apply_changed-file :
      (path content : Text) (c : Dict Text × List Text) (files : Files)
      → files path ≡ some content
      → IsWritable h files path
      → (apply_changed js to_number h path content c files).1 path
        ≡ some (merge_env_file content c.0)
  unfolding merge_env_file
  apply_changed-file path content ([], services) files f w = f
  apply_changed-file path content (e ∷ c, services) files f w =
      rw (w (merge_env_file content (e ∷ c))) (put-same files path (merge_env_file content (e ∷ c)))

  update_with-file :
      (updates : Updates) (files : Files) (path content : Text)
      → env_path js to_number h files ≡ inr path
      → files path ≡ some content
      → IsWritable h files path
      → (update_with js to_number h (inr updates) files).1 path
        ≡ some (merge_env_file content (changes content updates).0)
  unfolding merge_env_file select_changed
  update_with-file [] files path content e f w = f
  update_with-file (u ∷ updates) files path content e f w =
      rw (e, f) (apply_changed-file path content (changes content (u ∷ updates)) files f w)

  -- The file behind an accepted body.
  update_config-file :
      (fields : Fields) (updates : Updates) (files : Files) (path content : Text)
      → collect js to_number h fields [] ≡ inr updates
      → env_path js to_number h files ≡ inr path
      → files path ≡ some content
      → IsWritable h files path
      → (update_config js to_number h (Json.object fields) files).1 path
        ≡ some (merge_env_file content (changes content updates).0)
  unfolding update_config
  update_config-file fields updates files path content c e f w =
      rw c (update_with-file updates files path content e f w)

  -- What a setting shows for a value from the file, with an update or without one.
  shown-changed :
      (o : Option (Text × ConfigSetting)) (s : ConfigSetting) (prev after : Dict Text)
      → ((v : Text) (t : ConfigSetting)
          → o ≡ some (v, t)
          → (t ≡ s) × (view_value js to_number s v ≡ v))
      → lookup s.key after
        ≡ or_option (changed_value js to_number h prev s.key o) (lookup s.key prev)
      → shown_value js to_number h s after
        ≡ or_else (value_for o) (shown_value js to_number h s prev)
  shown-changed none s prev after n e =
      ap (λ x. view_value js to_number s (or_else x (or_else (h.env s.key) []))) e
  shown-changed (some (v, t)) s prev after n e =
      let (same, settled) = n v t refl in
      let view : Option Text → Text =
        λ x. view_value js to_number s (or_else x (or_else (h.env s.key) [])) in
      let now : Bool → Option Text =
        λ b. or_option (if b then none else some v) (lookup s.key prev) in
      elim (Bool-cases (same_value js to_number h prev s.key v t)) [
        | inl b ↦
            ap view (e ∙ ap now b)
            ∙ ap (λ x. view_value js to_number x (effective_value js to_number h s.key prev))
                (sym same)
            ∙ (str_eq_iff _ v).0 b
        | inr b ↦ ap view (e ∙ ap now b) ∙ settled
      ]

  some_unique : (o : Option ConfigSetting) (s t : ConfigSetting) → o ≡ some t → o ≡ some s → t ≡ s
  some_unique o s t e f = cc

  -- An update that is accepted is shown as it is.
  update-shown :
      (laws : IsPrinting js to_number) (updates : Updates) (s : ConfigSetting)
      → AllEntries (IsUpdate js to_number h) updates
      → all_entries is_writable updates ≡ true
      → lookup s.key config_setting_by_key ≡ some s
      → (v : Text) (t : ConfigSetting) → lookup s.key updates ≡ some (v, t)
      → (t ≡ s) × (view_value js to_number s v ≡ v)
  update-shown laws updates s a q e v t f =
      let (found, raw, normal) =
        lookup-AllEntries (IsUpdate js to_number h) s.key (v, t) updates a f in
      let same = some_unique _ s t found e in
      let settled = lookup-all_entries is_writable s.key (v, t) updates q f in
      (
        same,
        subst (λ x. view_value js to_number x v ≡ v) same
            (view_value-normalize js to_number laws t raw v normal (ground (arith, settled))),
      )

  -- `updateConfig` with a body that is accepted leaves a file for which a setting shows the new
  -- value, normalised, if the body has its key, and what it showed before if not. The new values
  -- have nothing to escape and no line break and are not blank for a boolean, the key of the setting
  -- stands on at most one line of the file, and the file can be written. Of the language, what it
  -- prints for a whole number is read as one that is printed alike, and words in lower case stay as
  -- they are.
  pub update_config-shown :
      (laws : IsPrinting js to_number) (fields : Fields) (updates : Updates) (files : Files)
      (path content : Text) (s : ConfigSetting)
      → collect js to_number h fields [] ≡ inr updates
      → env_path js to_number h files ≡ inr path
      → files path ≡ some content
      → IsWritable h files path
      → all_entries is_writable updates ≡ true
      → lookup s.key config_setting_by_key ≡ some s
      → times s.key (lines content) ≤ 1
      → (content' : Text) × ((update_config js to_number h (Json.object fields) files).1 path
          ≡ some content')
        × (shown_value js to_number h s (parse_env_assignments content')
            ≡ or_else
                (value_for (lookup s.key updates))
                (shown_value js to_number h s (parse_env_assignments content)))
  unfolding lookup
  update_config-shown laws fields updates files path content s c e f w q known once =
      let prev = parse_env_assignments content in
      let (a, n) = collect-IsUpdate js to_number h fields [] updates tt tt c in
      let (plain, distinct) =
        select_changed-keeps js to_number h prev updates ([], []) a (settled_plain updates q)
          (tt, tt) in
      (
        merge_env_file content (changes content updates).0,
        update_config-file fields updates files path content c e f w,
        shown-changed (lookup s.key updates) s prev
            (parse_env_assignments (merge_env_file content (changes content updates).0))
            (update-shown laws updates s a q known)
            (lookup-merge_env_file s.key content (changes content updates).0 plain distinct
                (inr once)
              ∙ ap (λ o. or_option o (lookup s.key prev))
                  (lookup-select_changed js to_number h prev s.key updates ([], []) n
                    ∙ or_option-none _)),
      )
