-- ===== src/Config/Host.antt =====
-- The files and the environment of the gateway, and `findRootEnvFile`, `resolveEnvFilePath`,
-- `readEnvFile` and `writeEnvFile` of apps/api-gateway/src/config/env-file.ts.
use ragpolyglot_demo.Base.{
  ℕ, zero, suc, Bool, Option, none, some, ◌++◌, ◌⊎◌, inl, inr, if◌then◌else◌, is_some, or_else,
}
use ragpolyglot_demo.Base.Text.{Text, codes, str_eq, trim, is_empty}

-- What a handler replies: the exception that it throws, or a value.
pub data ConfigError : Type 0 where
  bad_request : Text → ConfigError
  service_unavailable : Text → ConfigError
  -- an `Error` that is no HTTP exception
  error : Text → ConfigError

abbrev pub Reply {ℓ} : Type ℓ → Type ℓ
Reply A = ConfigError ⊎ A

-- The content of the file at a path, if there is one.
abbrev pub Files : Type 0
Files = Text → Option Text

-- What becomes of `writeFileSync`: the file is written, or an error is thrown with a message, and
-- the file is left with the given content or is not there.
pub data Write : Type 0 where
  written : Write
  failed : Text → Option Text → Write

-- What Node and the process say: `process.env`, `process.cwd()`, `resolve(p)`, `resolve(dir, p)`,
-- `dirname`, and whether a file can be written.
pub record Host : Type 0 where
  pub env : Text → Option Text
  pub cwd : Text
  pub absolute : Text → Text
  pub resolve : Text → Text → Text
  pub dirname : Text → Text
  pub write : Files → Text → Text → Write

-- `existsSync`
abbrev pub exists_sync : Files → Text → Bool
exists_sync files path = is_some (files path)

abbrev pub env_file_search_max_depth : ℕ
env_file_search_max_depth = 8

module _ (h : Host) where
  -- The loop of `findRootEnvFile`, with the rounds that are left.
  unfoldable pub find_from : Files → ℕ → Text → Option Text
  find_from files zero dir = none
  find_from files (suc n) dir =
      let rest = find_from files n (h.dirname dir) in
      if exists_sync files (h.resolve dir (codes ".env"))
      then some (h.resolve dir (codes ".env"))
      else if str_eq (h.dirname dir) dir
      then none
      else rest

  abbrev pub find_root_env_file : Files → Text → Option Text
  find_root_env_file files start_dir =
      find_from files env_file_search_max_depth (h.absolute start_dir)

  abbrev found_or_error : Option Text → Text ⊎ Text
  found_or_error none =
      inl (codes "ENV_FILE_PATH is unset and no .env was found from process.cwd()")
  found_or_error (some path) = inr path

  -- The message of the error, or the path.
  unfoldable pub resolve_env_file_path : Files → Text ⊎ Text
  resolve_env_file_path files =
      let from_env = trim (or_else (h.env (codes "ENV_FILE_PATH")) (codes "")) in
      if is_empty from_env
      then found_or_error (find_root_env_file files h.cwd)
      else inr (h.absolute from_env)

abbrev content_or_error : Text → Option Text → Reply Text
content_or_error path none = inl (ConfigError.error (codes "env file not found: " ++ path))
content_or_error path (some content) = inr content

abbrev pub read_env_file : Files → Text → Reply Text
read_env_file files path = content_or_error path (files path)

-- The files with another content at a path.
unfoldable pub put_file : Text → Option Text → Files → Files
put_file path content files = λ p. if str_eq p path then content else files p

abbrev pub after_write : Files → Text → Text → Write → Reply (Unit {0}) × Files
after_write files path content Write.written = (inr tt, put_file path (some content) files)
after_write files path content (Write.failed message left) =
    (inl (ConfigError.error message), put_file path left files)

abbrev pub write_env_file : Host → Files → Text → Text → Reply (Unit {0}) × Files
write_env_file h files path content = after_write files path content (h.write files path content)
