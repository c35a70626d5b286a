-- ===== src/Config/Runtime/Failed.antt =====
-- `updateConfig` fails before or while it writes the file.
use ragpolyglot_demo.Base.{
  ℕ, zero, suc, ◌⊎◌, Option, sym, subst, ◌≡◌, refl, ap, ◌∙◌, some, List, [], ◌∷◌, inl, inr,
  Bool-cases, Option-cases, is_some,
}
use ragpolyglot_demo.Base.Text.{Text, codes, str_eq, str_eq_iff}
use ragpolyglot_demo.Base.Dict.{Dict}
use ragpolyglot_demo.Shared.Json.{Json, Js, Fields}
use ragpolyglot_demo.Shared.Number.{Number}
use ragpolyglot_demo.Config.EnvFile.{parse_env_assignments, merge_env_file}
use ragpolyglot_demo.Config.Settings.{ConfigSetting}
use ragpolyglot_demo.Config.Host.{
  ConfigError, Reply, Host, Files, exists_sync, find_from, resolve_env_file_path, Write, put_file,
  after_write, env_file_search_max_depth,
}
use ragpolyglot_demo.Config.Runtime.{
  Updates, RuntimeConfig, RuntimeConfigUpdate, env_path, get_config, reply_with, reply_written,
  collect, select_changed, apply_changed, read_and_apply, update_with, update_config,
}

-- The files have the same paths.
abbrev SamePaths : Files → Files → Type 0
SamePaths files files' = (p : Text) → exists_sync files p ≡ exists_sync files' p

module _ (h : Host) where
  find_from-SamePaths :
      (files files' : Files) (n : ℕ) (dir : Text)
      → SamePaths files files'
      → find_from h files n dir ≡ find_from h files' n dir
  unfolding find_from
  find_from-SamePaths files files' zero dir e = refl
  find_from-SamePaths files files' (suc n) dir e =
      rw (e (h.resolve dir (codes ".env")), find_from-SamePaths files files' n (h.dirname dir) e)
        refl

  resolve-SamePaths :
      (files files' : Files)
      → SamePaths files files'
      → resolve_env_file_path h files ≡ resolve_env_file_path h files'
  unfolding resolve_env_file_path
  resolve-SamePaths files files' e =
      rw (find_from-SamePaths files files' env_file_search_max_depth (h.absolute h.cwd) e) refl

put-SamePaths :
    (files : Files) (path old content : Text)
    → files path ≡ some old
    → SamePaths files (put_file path (some content) files)
unfolding put_file
put-SamePaths files path old content e p = elim (Bool-cases (str_eq p path)) [
  | inl b ↦ rw b (ap (λ q. exists_sync files q) ((str_eq_iff p path).0 b) ∙ ap is_some e)
  | inr b ↦ rw b refl
]

pub put-same :
    (files : Files) (path content : Text) → put_file path (some content) files path ≡ some content
unfolding put_file
put-same files path content = rw ((str_eq_iff path path).1 refl) refl

-- Whatever stands at a path, it can be written over.
abbrev pub IsWritable : Host → Files → Text → Type 0
IsWritable h files path = (content : Text) → h.write files path content ≡ Write.written

module _ (js : Js) (to_number : Text → Number) (h : Host) where
  env_path-SamePaths :
      (files files' : Files)
      → SamePaths files files'
      → env_path js to_number h files' ≡ env_path js to_number h files
  unfolding env_path
  env_path-SamePaths files files' e = rw (resolve-SamePaths h files files' e) refl

  get_config-total :
      (files : Files) (path content : Text)
      → env_path js to_number h files ≡ inr path
      → files path ≡ some content
      → (config : RuntimeConfig) × (get_config js to_number h files ≡ inr config)
  unfolding get_config
  get_config-total files path content e f = rw (e, f) (_, refl)

  answer-total :
      (files : Files) (path content p command : Text) (keys services : List Text)
      → env_path js to_number h files ≡ inr path
      → files path ≡ some content
      → (r : RuntimeConfigUpdate) × (reply_with js to_number h p keys services command files
          ≡ inr r)
  answer-total files path content p command keys services e f =
      let (config, total) = get_config-total files path content e f in rw total (_, refl)

  written-total :
      (files : Files) (path old content : Text) (keys services : List Text)
      → env_path js to_number h files ≡ inr path
      → files path ≡ some old
      → (r : RuntimeConfigUpdate) × ((reply_written js to_number h path keys services
            (after_write files path content Write.written)).0
          ≡ inr r)
  written-total files path old content keys services e f =
      let same = put-SamePaths files path old content f in
      answer-total (put_file path (some content) files) path content path _ keys services
        (env_path-SamePaths files (put_file path (some content) files) same ∙ e)
        (put-same files path content)

  -- Once the file is read and can be written, there is an answer.
  pub apply_changed-total :
      (path content : Text) (c : Dict Text × List Text) (files : Files)
      → env_path js to_number h files ≡ inr path
      → files path ≡ some content
      → IsWritable h files path
      → (r : RuntimeConfigUpdate) × ((apply_changed js to_number h path content c files).0 ≡ inr r)
  apply_changed-total path content ([], services) files e f w =
      answer-total files path content path _ _ _ e f
  apply_changed-total path content (change ∷ changed, services) files e f w =
      rw (w (merge_env_file content (change ∷ changed)))
        (written-total files path content (merge_env_file content (change ∷ changed)) _ _ e f)

  -- A write at the path of the settings has failed with this exception, and the files differ at that
  -- path alone.
  abbrev pub WriteFailed : Files → ConfigError → Files → Type 0
  WriteFailed files e files' =
      (path content message : Text) × (left : Option Text) × (env_path js to_number h files
        ≡ inr path)
      × (h.write files path content ≡ Write.failed message left)
      × (e ≡ ConfigError.error message)
      × (files' ≡ put_file path left files)

  written-failed :
      (files : Files) (path old content : Text) (keys services : List Text) (e : ConfigError)
      (w : Write)
      → env_path js to_number h files ≡ inr path
      → files path ≡ some old
      → h.write files path content ≡ w
      → (reply_written js to_number h path keys services (after_write files path content w)).0
        ≡ inl e
      → WriteFailed files e
          (reply_written js to_number h path keys services (after_write files path content w)).1
  written-failed files path old content keys services e Write.written p f q failed =
      let (r, total) = written-total files path old content keys services p f in cc (failed, total)
  written-failed files path old content keys services e (Write.failed message left) p f q failed =
      (path, content, message, left, p, q, cc failed, refl)

  apply_changed-failed :
      (path content : Text) (c : Dict Text × List Text) (files : Files) (e : ConfigError)
      → env_path js to_number h files ≡ inr path
      → files path ≡ some content
      → (apply_changed js to_number h path content c files).0 ≡ inl e
      → ((apply_changed js to_number h path content c files).1 ≡ files)
        ⊎ WriteFailed files e (apply_changed js to_number h path content c files).1
  apply_changed-failed path content ([], services) files e p f failed = inl refl
  apply_changed-failed path content (change ∷ changed, services) files e p f failed = inr (
      written-failed files path content (merge_env_file content (change ∷ changed)) _ _ e _ p f refl
        failed)

  -- With a file to read, the update is applied, and there is an answer.
  abbrev applied : Text → Text → Updates → Files → Reply RuntimeConfigUpdate × Files
  applied path content updates files =
      apply_changed js to_number h path content
        (select_changed js to_number h (parse_env_assignments content) updates ([], [])) files

  read_and_apply-found :
      (updates : Updates) (files : Files) (path content : Text)
      → files path ≡ some content
      → read_and_apply js to_number h (inr path) updates files ≡ applied path content updates files
  read_and_apply-found updates files path content f = rw f refl

  -- The files are the same, or the write has failed.
  abbrev pub Unchanged : Files → ConfigError → Files → Type 0
  Unchanged files e files' = (files' ≡ files) ⊎ WriteFailed files e files'

  read_and_apply-failed :
      (updates : Updates) (files : Files) (e : ConfigError) (r : Reply Text)
      → env_path js to_number h files ≡ r
      → (read_and_apply js to_number h r updates files).0 ≡ inl e
      → Unchanged files e (read_and_apply js to_number h r updates files).1
  read_and_apply-failed updates files e (inl x) p failed = inl refl
  read_and_apply-failed updates files e (inr path) p failed = elim (Option-cases (files path)) [
    | inl f ↦ inl (rw f refl)
    | inr (content, f) ↦
        let same = read_and_apply-found updates files path content f in
        let c = select_changed js to_number h (parse_env_assignments content) updates ([], []) in
        subst (λ x. Unchanged files e x.1) (sym same)
          (apply_changed-failed path content c files e p f (sym (ap (λ x. x.0) same) ∙ failed))
  ]

  update_with-failed :
      (r : Reply Updates) (files : Files) (e : ConfigError)
      → (update_with js to_number h r files).0 ≡ inl e
      → Unchanged files e (update_with js to_number h r files).1
  update_with-failed (inl x) files e failed = inl refl
  update_with-failed (inr []) files e failed = inl refl
  update_with-failed (inr (u ∷ updates)) files e failed =
      read_and_apply-failed (u ∷ updates) files e (env_path js to_number h files) refl failed

  -- If `updateConfig` throws, whatever the body, then no file is changed, unless the exception is
  -- that of writing the file of the settings: then no other file is changed.
  pub update_config-failed :
      (body : Json) (files : Files) (e : ConfigError)
      → (update_config js to_number h body files).0 ≡ inl e
      → Unchanged files e (update_config js to_number h body files).1
  unfolding update_config
  update_config-failed Json.null files e failed = inl refl
  update_config-failed (Json.boolean x) files e failed = inl refl
  update_config-failed (Json.number x) files e failed = inl refl
  update_config-failed (Json.string x) files e failed = inl refl
  update_config-failed (Json.array x) files e failed = inl refl
  update_config-failed (Json.object fields) files e failed =
      update_with-failed (collect js to_number h fields []) files e failed

  -- `updateConfig` with a body that is accepted and has a key returns an answer, as long as the
  -- path of the `.env` file is found and there is a file that can be written.
  pub update_config-total :
      (fields : Fields) (u : Text × (Text × ConfigSetting)) (updates : Updates) (files : Files)
      (path content : Text)
      → collect js to_number h fields [] ≡ inr (u ∷ updates)
      → env_path js to_number h files ≡ inr path
      → files path ≡ some content
      → IsWritable h files path
      → (r : RuntimeConfigUpdate) × ((update_config js to_number h (Json.object fields) files).0
          ≡ inr r)
  unfolding update_config
  update_config-total fields u updates files path content c e f w =
      let changes =
        select_changed js to_number h (parse_env_assignments content) (u ∷ updates) ([], []) in
      let (r, total) = apply_changed-total path content changes files e f w in
      (
        r,
        rw (c, e) (ap (λ x. x.0) (read_and_apply-found (u ∷ updates) files path content f) ∙ total),
      )
