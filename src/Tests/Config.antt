-- ===== src/Tests/Config.antt =====
-- A `.env` file, and an update of the settings.
use ragpolyglot_demo.Base.{
  ℕ, zero, suc, ap, ◌∙◌, length, ◌+◌, ◌/◌, ◌%◌, ◌^◌, ◌==◌, ◌≡◌, refl, true, false, none, some, List,
  [], ◌∷◌, ◌++◌, inl, inr, arith, if◌then◌else◌, or_option, or_else,
}
use ragpolyglot_demo.Base.Text.{Text, codes, str_eq, is_space, trim, trim_start, trim_end, is_empty}
use ragpolyglot_demo.Base.Dict.{Dict, lookup, insert, erase}
use ragpolyglot_demo.Base.Int.{pos, negsuc}
use ragpolyglot_demo.Shared.Json.{Json, Js, Fields}
use ragpolyglot_demo.Shared.Number.{Number, whole}
use ragpolyglot_demo.Config.EnvFile.{
  lines, join, merge_lines, merge_line, has_crlf, format_env_value, new_lines, escape, drop_cr,
  lines_from, split_at_eq, assignment, parse_env_assignments, merge_env_file,
}
use ragpolyglot_demo.Config.EnvFile.Merge.{times}
use ragpolyglot_demo.Config.EnvFile.Merge.RoundTrip.{lookup-merge_env_file}
use ragpolyglot_demo.Shared.Types.{ConfigValueKind}
use ragpolyglot_demo.Config.Settings.{ConfigSetting, config_settings, by_key, config_setting_by_key}
use ragpolyglot_demo.Config.Host.{ConfigError, Host, Files, Write, resolve_env_file_path}
use ragpolyglot_demo.Config.Runtime.{
  RuntimeConfigUpdate, Updates, is_integer, normalize_value, env_path, shown_value, collect,
  update_config,
}
use ragpolyglot_demo.Config.Runtime.Values.{IsPrinting}
use ragpolyglot_demo.Config.Runtime.Shown.{value_for, update_config-shown}
use ragpolyglot_demo.Config.Runtime.Failed.{Unchanged, update_config-failed, update_config-total}
use ragpolyglot_demo.Tests.Shared.{ascii_js}

abbrev env_text : Text
env_text = codes "# chat\nRAG_TOP_K=5\nLLM_MODEL=\"a b\"\n"

abbrev env_updates : Dict Text
env_updates = (codes "RAG_TOP_K", codes "7") ∷ (codes "MAX_CHUNKS", codes "1 # 2") ∷ []

merged :
    merge_env_file env_text env_updates
    ≡ codes
        "# chat\nRAG_TOP_K=7\nLLM_MODEL=\"a b\"\n\n# Updated via /api/config\nMAX_CHUNKS=\"1 # 2\"\n"
unfolding merge_env_file join merge_lines lines_from merge_line assignment trim drop_cr str_eq
    has_crlf split_at_eq lookup format_env_value erase new_lines escape
merged = refl

no_line : times (codes "MAX_CHUNKS") (lines env_text) ≡ 0
unfolding assignment lines_from trim str_eq drop_cr split_at_eq
no_line = refl

lookup-merge_env_file_example :
    lookup (codes "MAX_CHUNKS") (parse_env_assignments (merge_env_file env_text env_updates))
    ≡ or_option
        (lookup (codes "MAX_CHUNKS") env_updates)
        (lookup (codes "MAX_CHUNKS") (parse_env_assignments env_text))
unfolding lookup str_eq is_space
lookup-merge_env_file_example =
    lookup-merge_env_file (codes "MAX_CHUNKS") env_text env_updates (refl, refl, (refl, refl, tt))
      (refl, (refl, tt)) (inr (omega (arith, no_line)))

-- Whole numbers printed as a sign and one unit `1` for each one.
abbrev ones : ℕ → Text
ones zero = []
ones (suc n) = 49 ∷ ones n

abbrev print_negative : ℕ → Text
print_negative zero = codes "+"
print_negative (suc n) = 45 ∷ 49 ∷ ones n

abbrev print_number : Number → Text
print_number (Number.finite (pos n) k) = 43 ∷ ones (n / 2 ^ k)
print_number (Number.finite (negsuc n) k) = print_negative ((n + 1) / 2 ^ k)
print_number _ = codes "NaN"

abbrev read_negative : Text → Number
read_negative [] = Number.nan
read_negative (c ∷ s) = Number.finite (negsuc (length s)) 0

abbrev read_number : Text → Number
read_number (c ∷ s) = if c == 43 then Number.finite (pos (length s)) 0 else read_negative s
read_number _ = Number.nan

abbrev print_json : Json → Text
print_json (Json.number n) = print_number n
print_json (Json.boolean true) = codes "true"
print_json (Json.boolean false) = codes "false"
print_json _ = []

abbrev printing_js : Js
printing_js = record { lower = ascii_js.lower; to_string = print_json; parse = λ s. none }

length-ones : (n : ℕ) → length (ones n) ≡ n
length-ones zero = refl
length-ones (suc n) = ap suc (length-ones n)

ones_tight : (n : ℕ) → trim_end (ones n) ≡ ones n
unfolding trim_end is_space
ones_tight zero = refl
ones_tight (suc n) = rw (ones_tight n) (ground arith)

printed_tight : (c n : ℕ) → is_space c ≡ false → trim (c ∷ ones n) ≡ c ∷ ones n
unfolding trim trim_start trim_end
printed_tight c n h = rw (h, ones_tight n) (ground (arith, h))

negative_tight : (n : ℕ) → trim (print_negative n) ≡ print_negative n
unfolding is_space
negative_tight zero = printed_tight 43 0 refl
negative_tight (suc n) = printed_tight 45 (suc n) refl

negative_filled : (n : ℕ) → is_empty (print_negative n) ≡ false
negative_filled zero = refl
negative_filled (suc n) = refl

whole_div : (n : ℕ) → n / 2 ^ 0 ≡ n
whole_div n = omega arith

whole_mod : (n : ℕ) → (n % 2 ^ 0 == 0) ≡ true
whole_mod n = ground arith

abbrev Again : Text → Type 0
Again t = (is_integer (read_number t) ≡ true) × (print_number (read_number t) ≡ t)

positive-Again : (n : ℕ) → Again (43 ∷ ones n)
unfolding is_integer
positive-Again n =
    (whole_mod _, ap (λ m. 43 ∷ ones m) (whole_div (length (ones n)) ∙ length-ones n))

suc_of : (n : ℕ) → n + 1 ≡ suc n
suc_of n = omega arith

negative-Again : (n : ℕ) → Again (print_negative n)
unfolding is_integer
negative-Again zero = positive-Again 0
negative-Again (suc n) = (
  whole_mod _,
  ap print_negative (whole_div (length (ones n) + 1) ∙ ap (λ m. m + 1) (length-ones n) ∙ suc_of n),
)

printing : IsPrinting printing_js read_number
unfolding is_integer is_space
printing = record {
  lower_true = refl;
  lower_false = refl;
  print_trim = print_trim;
  print_filled = print_filled;
  print_read = print_read;
}
  where
    print_trim : (n : Number) → is_integer n ≡ true → trim (print_number n) ≡ print_number n
    print_trim Number.nan h = cc
    print_trim (Number.infinite b) h = cc
    print_trim (Number.finite (pos n) k) h = printed_tight 43 (n / 2 ^ k) refl
    print_trim (Number.finite (negsuc n) k) h = negative_tight ((n + 1) / 2 ^ k)

    print_filled : (n : Number) → is_integer n ≡ true → is_empty (print_number n) ≡ false
    print_filled Number.nan h = cc
    print_filled (Number.infinite b) h = cc
    print_filled (Number.finite (pos n) k) h = refl
    print_filled (Number.finite (negsuc n) k) h = negative_filled ((n + 1) / 2 ^ k)

    print_read : (n : Number) → is_integer n ≡ true → Again (print_number n)
    print_read Number.nan h = cc
    print_read (Number.infinite b) h = cc
    print_read (Number.finite (pos n) k) h = positive-Again (n / 2 ^ k)
    print_read (Number.finite (negsuc n) k) h = negative-Again ((n + 1) / 2 ^ k)

abbrev env_file : Text
env_file = codes "/app/.env"

-- The path is set in the environment.
abbrev host : Host
host = record {
  env = λ k. if str_eq k (codes "ENV_FILE_PATH") then some env_file else none;
  cwd = codes "/app";
  absolute = λ p. p;
  resolve = λ dir p. dir ++ codes "/" ++ p;
  dirname = λ dir. [];
  write = λ files path content. Write.written;
}

abbrev disk : Files
disk path = if str_eq path env_file then some env_text else none

abbrev fields : Fields
fields =
    Fields.field (codes "RAG_TOP_K") (Json.number (whole 7))
      (Fields.field (codes "EMBEDDING_FALLBACK") (Json.boolean true) Fields.end)

abbrev setting : Text → ConfigValueKind → List Text → ConfigSetting
setting key kind services = record { key = key; kind = kind; services = services }

abbrev top_k : ConfigSetting
top_k =
    setting (codes "RAG_TOP_K") ConfigValueKind.int (codes "api-gateway" ∷ codes "rag-worker" ∷ [])

abbrev fallback : ConfigSetting
fallback = setting (codes "EMBEDDING_FALLBACK") ConfigValueKind.bool (codes "rag-worker" ∷ [])

abbrev update_seven : Text × (Text × ConfigSetting)
update_seven = (codes "RAG_TOP_K", (print_number (whole 7), top_k))

abbrev update_true : Updates
update_true = (codes "EMBEDDING_FALLBACK", (codes "true", fallback)) ∷ []

collected : collect printing_js read_number host fields [] ≡ inr (update_seven ∷ update_true)
unfolding collect lookup config_setting_by_key by_key config_settings insert str_eq normalize_value
    trim is_integer
collected = refl

found : env_path printing_js read_number host disk ≡ inr env_file
unfolding env_path resolve_env_file_path trim str_eq
found = refl

on_disk : disk env_file ≡ some env_text
unfolding str_eq
on_disk = refl

top_k_known : lookup (codes "RAG_TOP_K") config_setting_by_key ≡ some top_k
unfolding lookup config_setting_by_key by_key config_settings insert str_eq
top_k_known = refl

one_line : times (codes "RAG_TOP_K") (lines env_text) ≡ 1
unfolding assignment lines_from trim str_eq drop_cr split_at_eq
one_line = refl

update_config-shown_example :
    (content : Text) × ((update_config printing_js read_number host (Json.object fields) disk).1
        env_file
      ≡ some content)
    × (shown_value printing_js read_number host top_k (parse_env_assignments content)
        ≡ or_else
            (value_for (lookup (codes "RAG_TOP_K") (update_seven ∷ update_true)))
            (shown_value printing_js read_number host top_k (parse_env_assignments env_text)))
unfolding lookup str_eq is_space
update_config-shown_example =
    update_config-shown printing_js read_number host printing fields (update_seven ∷ update_true)
      disk env_file env_text top_k collected found on_disk (λ content. refl) refl top_k_known
      (omega (arith, one_line))

update_config-total_example :
    (r : RuntimeConfigUpdate) × ((update_config printing_js read_number host
        (Json.object fields)
        disk).0
      ≡ inr r)
unfolding str_eq
update_config-total_example =
    update_config-total printing_js read_number host fields update_seven update_true disk env_file
      env_text collected found on_disk (λ content. refl)

abbrev unknown_key : Json
unknown_key = Json.object (
    Fields.field (codes "RAG_TOP_K") (Json.number (whole 7))
      (Fields.field (codes "PORT") (Json.string (codes "1")) Fields.end))

refused :
    (update_config printing_js read_number host unknown_key disk).0
    ≡ inl (ConfigError.bad_request (codes "Key not allowed: PORT"))
unfolding update_config collect lookup config_setting_by_key by_key config_settings insert str_eq
    normalize_value trim is_integer
refused = refl

update_config-failed_example :
    Unchanged printing_js read_number host disk
      (ConfigError.bad_request (codes "Key not allowed: PORT"))
      (update_config printing_js read_number host unknown_key disk).1
update_config-failed_example =
    update_config-failed printing_js read_number host unknown_key disk
      (ConfigError.bad_request (codes "Key not allowed: PORT")) refused
