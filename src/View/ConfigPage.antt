-- ===== src/View/ConfigPage.antt =====
-- apps/react-frontend/src/pages/ConfigPage.tsx with lib/runtime-config.ts: the draft of the
-- settings, what of it is saved, and what a reply does to the page.
pub mod Dirty
use ragpolyglot_demo.Base.{
  Bool, true, false, not, ◌||◌, ◌++◌, Option, none, some, List, [], ◌∷◌, ◌⊎◌, inl, inr,
  if◌then◌else◌, is_some,
}
use ragpolyglot_demo.Base.Text.{Text, codes, str_eq, is_empty}
use ragpolyglot_demo.Base.Order.{sort}
use ragpolyglot_demo.Base.Dict.{Dict, lookup, insert}
use ragpolyglot_demo.Config.EnvFile.{join}
use ragpolyglot_demo.Config.Runtime.{RuntimeConfigSetting, RuntimeConfig, RuntimeConfigUpdate}

abbrev pub same_text : Option Text → Text → Bool
same_text none value = false
same_text (some v) value = str_eq v value

-- `dirtyValues`
unfoldable pub dirty_values : Dict Text → Dict Text → Dict Text
dirty_values [] saved = []
dirty_values ((key, value) ∷ rest) saved =
    let out = dirty_values rest saved in
    if same_text (lookup key saved) value then out else (key, value) ∷ out

-- The groups of `groupByServices`, before they are sorted by their labels.
abbrev joined :
    RuntimeConfigSetting → Option (List RuntimeConfigSetting) → List RuntimeConfigSetting
joined setting none = setting ∷ []
joined setting (some items) = items ++ setting ∷ []

unfoldable pub groups_from :
    Dict (List RuntimeConfigSetting) → List RuntimeConfigSetting → Dict (List RuntimeConfigSetting)
groups_from groups [] = groups
groups_from groups (setting ∷ rest) =
    let label = join (codes " + ") (sort setting.services) in
    groups_from (insert label (joined setting (lookup label groups)) groups) rest

-- An `ApiError` with its message, or another error.
pub data PageError : Type 0 where
  api_error : Text → PageError
  other_error : PageError

abbrev pub error_text : Text → PageError → Text
error_text fallback (api_error message) = message
error_text fallback other_error = fallback

pub record ConfigPage : Type 0 where
  pub config : Option RuntimeConfig
  pub draft : Dict Text
  pub loading : Bool
  pub saving : Bool
  pub error : Option Text
  pub result : Option RuntimeConfigUpdate
  pub copied : Bool

-- `Object.fromEntries(settings.map((s) => [s.key, s.value]))`, behind the entries already there
unfoldable pub values_from : Dict Text → List RuntimeConfigSetting → Dict Text
values_from out [] = out
values_from out (s ∷ rest) = values_from (insert s.key s.value out) rest

abbrev pub settings_of : Option RuntimeConfig → List RuntimeConfigSetting
settings_of none = []
settings_of (some config) = config.settings

abbrev pub saved_values : ConfigPage → Dict Text
saved_values p = values_from [] (settings_of p.config)

abbrev pub dirty : ConfigPage → Dict Text
dirty p = dirty_values p.draft (saved_values p)

unfoldable pub apply_payload : RuntimeConfig → ConfigPage → ConfigPage
apply_payload payload p = record p {
  config = some payload;
  draft = values_from [] payload.settings;
}

-- The settings have been read, or not.
unfoldable pub on_loaded : PageError ⊎ RuntimeConfig → ConfigPage → ConfigPage
on_loaded (inl e) p = record p {
  error = some (error_text (codes "Failed to load config") e);
  loading = false;
}
on_loaded (inr payload) p = record (apply_payload payload p) { error = none; loading = false }

unfoldable pub set_value : Text → Text → ConfigPage → ConfigPage
set_value key value p = record p { draft = insert key value p.draft; result = none; copied = false }

unfoldable pub discard : ConfigPage → ConfigPage
discard p = record p { draft = saved_values p; result = none; copied = false; error = none }

abbrev none_dirty : Dict Text → Bool
none_dirty [] = true
none_dirty (e ∷ es) = false

-- `save` up to its request, and the values that it sends.
unfoldable pub save : ConfigPage → ConfigPage × Option (Dict Text)
save p =
    if none_dirty (dirty p) || p.saving
    then (p, none)
    else (record p { saving = true; error = none; copied = false }, some (dirty p))

abbrev config_of : RuntimeConfigUpdate → RuntimeConfig
config_of payload = record { env_file_path = payload.env_file_path; settings = payload.settings }

unfoldable pub on_saved : PageError ⊎ RuntimeConfigUpdate → ConfigPage → ConfigPage
on_saved (inl e) p = record p {
  error = some (error_text (codes "Failed to save config") e);
  saving = false;
}
on_saved (inr payload) p = record (apply_payload (config_of payload) p) {
  result = some payload;
  saving = false;
}

abbrev has_command : Option RuntimeConfigUpdate → Bool
has_command none = false
has_command (some result) = not (is_empty result.command)

abbrev copied_or_error : Bool → ConfigPage → ConfigPage
copied_or_error true p = record p { copied = true }
copied_or_error false p = record p { error = some (codes "Could not copy command to clipboard") }

-- `copyCommand`: if there is a command, the clipboard takes it or not.
unfoldable pub on_copied : Bool → ConfigPage → ConfigPage
on_copied ok p = if has_command p.result then copied_or_error ok p else p
