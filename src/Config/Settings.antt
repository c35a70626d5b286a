-- ===== src/Config/Settings.antt =====
-- apps/api-gateway/src/config/config-settings.ts: the settings that can be edited in the UI, and
-- the command that makes services read them again.
pub mod Laws
use Prim.Native.String.{String}
use ragpolyglot_demo.Base.{List, [], ◌∷◌, ◌++◌}
use ragpolyglot_demo.Base.Text.{Text, codes}
use ragpolyglot_demo.Base.Order.{set_from, sort}
use ragpolyglot_demo.Shared.Types.{ConfigValueKind}
use ragpolyglot_demo.Base.Dict.{Dict, insert}
use ragpolyglot_demo.Config.EnvFile.{join}

pub record ConfigSetting : Type 0 where
  pub key : Text
  pub kind : ConfigValueKind
  pub services : List Text

abbrev setting : String → ConfigValueKind → List Text → ConfigSetting
setting name kind services = record { key = codes name; kind = kind; services = services }

abbrev worker : List Text
worker = codes "rag-worker" ∷ []

abbrev gateway : List Text
gateway = codes "api-gateway" ∷ []

abbrev gateway_and_worker : List Text
gateway_and_worker = codes "api-gateway" ∷ codes "rag-worker" ∷ []

abbrev processor : List Text
processor = codes "event-processor" ∷ []

abbrev retrying : List Text
retrying = codes "document-service" ∷ codes "event-processor" ∷ []

-- `CONFIG_SETTINGS`
unfoldable pub config_settings : List ConfigSetting
config_settings =
    setting "FAST_INGEST_PREFETCH" ConfigValueKind.int worker
    ∷ setting "OCR_INGEST_PREFETCH" ConfigValueKind.int worker
    ∷ setting "OCR_POOL_SLOTS" ConfigValueKind.int worker
    ∷ setting "EMBED_POOL_SLOTS" ConfigValueKind.int worker
    ∷ setting "WORK_MEMORY_BUDGET_MB" ConfigValueKind.int worker
    ∷ setting "EMBED_MEMORY_BUDGET_MB" ConfigValueKind.int worker
    ∷ setting "OCR_PAGE_MEMORY_MB" ConfigValueKind.int worker
    ∷ setting "EMBED_BATCH_MEMORY_MB" ConfigValueKind.int worker
    ∷ setting "OCR_RENDER_DPI" ConfigValueKind.int worker
    ∷ setting "KRAKEN_DEVICE" ConfigValueKind.string worker
    ∷ setting "KRAKEN_GPU_CONCURRENT" ConfigValueKind.int worker
    ∷ setting "KRAKEN_BATCH_PAGES" ConfigValueKind.int worker
    ∷ setting "KRAKEN_THREADS" ConfigValueKind.int worker
    ∷ setting "KRAKEN_PRECISION" ConfigValueKind.string worker
    ∷ setting "KRAKEN_LINE_BATCH" ConfigValueKind.int worker
    ∷ setting "KRAKEN_LINE_WORKERS" ConfigValueKind.int worker
    ∷ setting "KRAKEN_VRAM_BUDGET_MB" ConfigValueKind.int worker
    ∷ setting "KRAKEN_VRAM_PAGE_MB" ConfigValueKind.int worker
    ∷ setting "KRAKEN_PAGE_MEMORY_MB" ConfigValueKind.int worker
    ∷ setting "EMBEDDING_FALLBACK" ConfigValueKind.bool worker
    ∷ setting "EMBEDDING_MODEL" ConfigValueKind.string worker
    ∷ setting "MAX_EXTRACTED_CHARS" ConfigValueKind.int worker
    ∷ setting "MAX_CHUNKS" ConfigValueKind.int worker
    ∷ setting "LMSTUDIO_API_URL" ConfigValueKind.string worker
    ∷ setting "LLM_MODEL" ConfigValueKind.string worker
    ∷ setting "LLM_HTTP_TIMEOUT_SECONDS" ConfigValueKind.int worker
    ∷ setting "RAG_SUMMARY_CONTEXT_CHARS" ConfigValueKind.int worker
    ∷ setting "RAG_CHAT_TOP_K" ConfigValueKind.int gateway_and_worker
    ∷ setting "RAG_CHAT_MAP_CONTEXT_CHARS" ConfigValueKind.int worker
    ∷ setting "HTTP_TIMEOUT_MS" ConfigValueKind.int gateway
    ∷ setting "RAG_CACHE_TTL_SECONDS" ConfigValueKind.int gateway
    ∷ setting "RAG_TOP_K" ConfigValueKind.int gateway_and_worker
    ∷ setting "MAX_UPLOAD_BYTES" ConfigValueKind.int gateway
    ∷ setting "AUTO_RETRY_INTERVAL_MINUTES" ConfigValueKind.int processor
    ∷ setting "AUTO_RETRY_MIN_AGE_MINUTES" ConfigValueKind.int retrying
    ∷ setting "AUTO_RETRY_MAX_RETRIES" ConfigValueKind.int retrying
    ∷ setting "AUTO_RETRY_LIMIT" ConfigValueKind.int retrying
    ∷ setting "LOG_RETENTION_DAYS" ConfigValueKind.int processor
    ∷ []

-- `new Map(settings.map((s) => [s.key, s]))`, from the entries already there
unfoldable pub by_key : List ConfigSetting → Dict ConfigSetting → Dict ConfigSetting
by_key [] m = m
by_key (s ∷ rest) m = by_key rest (insert s.key s m)

unfoldable pub config_setting_by_key : Dict ConfigSetting
config_setting_by_key = by_key config_settings []

abbrev command_for : List Text → Text
command_for [] = []
command_for (s ∷ services) =
    codes "docker compose up -d --force-recreate --no-deps " ++ join (codes " ") (s ∷ services)

unfoldable pub recreate_command : List Text → Text
recreate_command services = command_for (sort (set_from [] services))
