-- ===== src/Config/Runtime.antt =====
-- apps/api-gateway/src/config/runtime-config.service.ts: reading and updating the settings.
pub mod Values
pub mod Updates
pub mod Shown
pub mod Failed
use ragpolyglot_demo.Base.{
  ℕ, ◌+◌, ◌%◌, ◌^◌, Bool, true, false, ◌||◌, Option, none, some, List, [], ◌∷◌, ◌++◌, ◌==◌, ◌⊎◌,
  inl, inr, if◌then◌else◌, or_else,
}
use ragpolyglot_demo.Base.Text.{Text, codes, str_eq, trim, is_empty}
use ragpolyglot_demo.Base.Order.{set_from, sort}
use ragpolyglot_demo.Base.Int.{pos_part, neg_part}
use ragpolyglot_demo.Base.Dict.{Dict, lookup, insert, keys}
use ragpolyglot_demo.Shared.Json.{Json, Js, Fields, as_string}
use ragpolyglot_demo.Shared.Number.{Number, nan, infinite, finite}
use ragpolyglot_demo.Config.EnvFile.{parse_env_assignments, merge_env_file}
use ragpolyglot_demo.Shared.Types.{ConfigValueKind}
use ragpolyglot_demo.Config.Settings.{
  ConfigSetting, config_settings, config_setting_by_key, recreate_command,
}
use ragpolyglot_demo.Config.Host.{
  ConfigError, Reply, Files, Host, resolve_env_file_path, read_env_file, write_env_file,
}

pub record RuntimeConfigSetting : Type 0 where
  pub key : Text
  pub kind : ConfigValueKind
  pub value : Text
  pub services : List Text

pub record RuntimeConfig : Type 0 where
  pub env_file_path : Text
  pub settings : List RuntimeConfigSetting

pub record RuntimeConfigUpdate : Type 0 where
  pub env_file_path : Text
  pub changed_keys : List Text
  pub recreate_services : List Text
  pub command : Text
  pub settings : List RuntimeConfigSetting

-- An update that is accepted: the normalised value and the setting.
abbrev pub Updates : Type 0
Updates = Dict (Text × ConfigSetting)

-- `Number.isInteger(x)`, which implies `Number.isFinite(x)`
unfoldable pub is_integer : Number → Bool
is_integer nan = false
is_integer (infinite _) = false
is_integer (finite m k) = (pos_part m + neg_part m) % 2 ^ k == 0

abbrev pub chain : {A B : Type 0} → Reply A → (A → Reply B) → Reply B
chain (inl e) f = inl e
chain (inr a) f = f a

module _ (js : Js) (to_number : Text → Number) where
  abbrev pub normalize_bool : Text → Text → Reply Text
  normalize_bool key as_text =
      let lower = js.lower as_text in
      if str_eq lower (codes "true") || str_eq lower (codes "1") || str_eq lower (codes "yes")
      then inr (codes "true")
      else if str_eq lower (codes "false")
          || str_eq lower (codes "0")
          || str_eq lower (codes "no")
          || is_empty lower
      then inr (codes "false")
      else inl (ConfigError.bad_request (key ++ codes " must be a boolean (true/false)"))

  abbrev pub normalize_int : Text → Text → Reply Text
  normalize_int key as_text =
      let n = to_number as_text in
      if is_empty as_text
      then inr (codes "")
      else if is_integer n
      then inr (js.to_string (Json.number n))
      else inl (ConfigError.bad_request (key ++ codes " must be an integer"))

  abbrev pub normalize_kind : ConfigValueKind → Text → Text → Reply Text
  normalize_kind ConfigValueKind.string key as_text = inr as_text
  normalize_kind ConfigValueKind.bool key as_text = normalize_bool key as_text
  normalize_kind ConfigValueKind.int key as_text = normalize_int key as_text

  abbrev pub trimmed : Json → Text
  trimmed raw = trim (or_else (as_string (some raw)) (js.to_string raw))

  unfoldable pub normalize_value : ConfigSetting → Json → Reply Text
  normalize_value setting Json.null = inr []
  normalize_value setting raw = normalize_kind setting.kind setting.key (trimmed raw)

  abbrev or_raw : Text → Reply Text → Text
  or_raw raw (inl _) = raw
  or_raw raw (inr value) = value

  unfoldable pub view_value : ConfigSetting → Text → Text
  view_value setting raw = or_raw raw (normalize_value setting (Json.string raw))

  module _ (h : Host) where
    abbrev path_or_unavailable : Text ⊎ Text → Reply Text
    path_or_unavailable (inl message) = inl (ConfigError.service_unavailable message)
    path_or_unavailable (inr path) = inr path

    unfoldable pub env_path : Files → Reply Text
    env_path files = path_or_unavailable (resolve_env_file_path h files)

    abbrev pub effective_value : Text → Dict Text → Text
    effective_value key file_values =
        or_else (lookup key file_values) (or_else (h.env key) (codes ""))

    -- The value of a setting that is shown for the assignments of a file.
    abbrev pub shown_value : ConfigSetting → Dict Text → Text
    shown_value setting file_values = view_value setting (effective_value setting.key file_values)

    unfoldable pub settings_of : Dict Text → List ConfigSetting → List RuntimeConfigSetting
    settings_of file_values [] = []
    settings_of file_values (s ∷ rest) =
        record {
          key = s.key;
          kind = s.kind;
          value = shown_value s file_values;
          services = s.services;
        }
        ∷ settings_of file_values rest

    unfoldable pub get_config : Files → Reply RuntimeConfig
    get_config files = chain (env_path files) (λ path. chain (read_env_file files path) (λ content.
        inr (record {
          env_file_path = path;
          settings = settings_of (parse_env_assignments content) config_settings;
        })))

    -- The first loop of `updateConfig`, over the entries of the body.
    abbrev pub allowed : Text → Option ConfigSetting → Reply ConfigSetting
    allowed key none = inl (ConfigError.bad_request (codes "Key not allowed: " ++ key))
    allowed key (some setting) = inr setting

    unfoldable pub collect : Fields → Updates → Reply Updates
    collect Fields.end updates = inr updates
    collect (Fields.field key raw rest) updates =
        chain (allowed key (lookup key config_setting_by_key)) (λ setting.
          chain (normalize_value setting raw)
            (λ value. collect rest (insert key (value, setting) updates)))

    -- The second loop: the values that change, and the services that read them.
    unfoldable pub select_changed :
        Dict Text → Updates → Dict Text × List Text → Dict Text × List Text
    select_changed prev_map [] acc = acc
    select_changed prev_map ((key, (value, setting)) ∷ rest) acc = select_changed prev_map rest (
        if str_eq (view_value setting (effective_value key prev_map)) value
        then acc
        else (insert key value acc.0, set_from acc.1 setting.services))

    -- The reply, with the settings as they are read again.
    abbrev pub reply_with : Text → List Text → List Text → Text → Files → Reply RuntimeConfigUpdate
    reply_with path changed_keys recreate_services command files =
        chain (get_config files) (λ config. inr (record {
          env_file_path = path;
          changed_keys = changed_keys;
          recreate_services = recreate_services;
          command = command;
          settings = config.settings;
        }))

    -- Behind the write: its exception, or the reply.
    abbrev pub reply_written :
        Text → List Text → List Text → Reply (Unit {0}) × Files → Reply RuntimeConfigUpdate × Files
    reply_written path changed_keys services (inl e, files) = (inl e, files)
    reply_written path changed_keys services (inr done, files) =
        (reply_with path changed_keys services (recreate_command services) files, files)

    abbrev pub apply_changed :
        Text → Text → Dict Text × List Text → Files → Reply RuntimeConfigUpdate × Files
    apply_changed path previous ([], services) files =
        (reply_with path [] [] (codes "") files, files)
    apply_changed path previous (change ∷ changed, services) files =
        reply_written path (sort (keys (change ∷ changed))) (sort services)
          (write_env_file h files path (merge_env_file previous (change ∷ changed)))

    -- `updateConfig` behind the check that there are updates.
    abbrev pub read_and_apply : Reply Text → Updates → Files → Reply RuntimeConfigUpdate × Files
    read_and_apply (inl e) updates files = (inl e, files)
    read_and_apply (inr path) updates files = with_previous (read_env_file files path)
      where
        with_previous : Reply Text → Reply RuntimeConfigUpdate × Files
        with_previous (inl e) = (inl e, files)
        with_previous (inr previous) =
            apply_changed path previous
              (select_changed (parse_env_assignments previous) updates ([], [])) files

    abbrev pub update_with : Reply Updates → Files → Reply RuntimeConfigUpdate × Files
    update_with (inl e) files = (inl e, files)
    update_with (inr []) files =
        (inl (ConfigError.bad_request (codes "No settings to update")), files)
    update_with (inr (u ∷ updates)) files = read_and_apply (env_path files) (u ∷ updates) files

    -- The body's fields stand in the order of `Object.entries`.
    unfoldable pub update_config : Json → Files → Reply RuntimeConfigUpdate × Files
    update_config (Json.object fields) files = update_with (collect fields []) files
    update_config _ files =
        (inl (ConfigError.bad_request (codes "Body must be an object of key → value")), files)
