-- ===== src/Config/Settings/Laws.antt =====
-- The table of settings: a key names one setting, and can be written to a `.env` file. The command
-- that restarts services depends on the set of services alone.
use ragpolyglot_demo.Base.{◌≡◌, refl, ap, Bool, true, ◌&&◌, some, List, arith}
use ragpolyglot_demo.Base.Text.{Text, str_eq, str_eq_iff, is_space}
use ragpolyglot_demo.Base.Sorted.{SameMembers, canonical_unique}
use ragpolyglot_demo.Base.Dict.{all_entries, lookup-all_entries, lookup, insert}
use ragpolyglot_demo.Config.EnvFile.Format.{is_plain_key}
use ragpolyglot_demo.Config.Settings.{
  ConfigSetting, config_settings, by_key, config_setting_by_key, command_for, recreate_command,
}

-- The name of a setting that can be edited is its key, and stands in a `.env` file as it is.
abbrev named : Text → ConfigSetting → Bool
named k s = str_eq s.key k && is_plain_key k

table_named : all_entries named config_setting_by_key ≡ true
unfolding config_setting_by_key config_settings by_key insert str_eq is_space
table_named = refl

pub setting-named :
    (k : Text) (s : ConfigSetting)
    → lookup k config_setting_by_key ≡ some s
    → (s.key ≡ k) × (is_plain_key k ≡ true)
setting-named k s e =
    let h = lookup-all_entries named k s config_setting_by_key table_named e in
    ((str_eq_iff s.key k).0 (ground (arith, h)), ground (arith, h))

-- The services can be given in any order and any number of times.
pub recreate_command-SameMembers :
    (xs ys : List Text) → SameMembers xs ys → recreate_command xs ≡ recreate_command ys
unfolding recreate_command
recreate_command-SameMembers xs ys same = ap command_for (canonical_unique xs ys same)
