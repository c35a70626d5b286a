-- ===== src/Shared/Types.antt =====
-- libs/shared/src/lib/types/types.ts: the enumerations and their spelling.
use ragpolyglot_demo.Base.{◌≡◌, Option, none, some, List, [], ◌∷◌, arith, if◌then◌else◌}
use ragpolyglot_demo.Base.Text.{Text, codes, str_eq, str_eq_iff}

pub data DocumentStatus : Type 0 where
  uploading processing paused ready failed : DocumentStatus

pub data SummarizeStatus : Type 0 where
  running paused failed : SummarizeStatus

pub data DocumentProgressStage : Type 0 where
  waiting_for_ocr extracting embedding : DocumentProgressStage

pub data OcrEngine : Type 0 where
  tesseract kraken_cpu kraken_gpu : OcrEngine

pub data ChatRole : Type 0 where
  user assistant : ChatRole

pub data ChatMode : Type 0 where
  fast deep : ChatMode

pub data ConfigValueKind : Type 0 where
  string int bool : ConfigValueKind

abbrev pub status_name : DocumentStatus → Text
status_name uploading = codes "uploading"
status_name processing = codes "processing"
status_name paused = codes "paused"
status_name ready = codes "ready"
status_name failed = codes "failed"

abbrev pub summarize_name : SummarizeStatus → Text
summarize_name running = codes "running"
summarize_name paused = codes "paused"
summarize_name failed = codes "failed"

abbrev pub stage_name : DocumentProgressStage → Text
stage_name waiting_for_ocr = codes "waiting_for_ocr"
stage_name extracting = codes "extracting"
stage_name embedding = codes "embedding"

abbrev pub engine_name : OcrEngine → Text
engine_name tesseract = codes "tesseract"
engine_name kraken_cpu = codes "krakenCPU"
engine_name kraken_gpu = codes "krakenGPU"

abbrev pub role_name : ChatRole → Text
role_name user = codes "user"
role_name assistant = codes "assistant"

abbrev pub mode_name : ChatMode → Text
mode_name fast = codes "fast"
mode_name deep = codes "deep"

-- `(NAMES as readonly string[]).includes(value)`, with the member that is meant
unfoldable pub find_named : {A : Type 0} → (A → Text) → List A → Text → Option A
find_named name [] s = none
find_named name (a ∷ as') s = if str_eq s (name a) then some a else find_named name as' s

pub find_named_sound :
    {A : Type 0} (name : A → Text) (members : List A) (s : Text) (a : A)
    → find_named name members s ≡ some a
    → s ≡ name a
unfolding find_named
find_named_sound name [] s a h = cc
find_named_sound name (b ∷ bs) s a h =
    ground (arith, str_eq_iff s (name b), find_named_sound name bs s a)
