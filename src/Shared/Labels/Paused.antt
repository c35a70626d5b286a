-- ===== src/Shared/Labels/Paused.antt =====
-- What the labels say of a pause.
use ragpolyglot_demo.Base.{◌≡◌, ◌==◌, Bool, true, false, ◌&&◌, Option, none, some, [], ◌∷◌, arith}
use ragpolyglot_demo.Base.Text.{Text, codes}
use ragpolyglot_demo.Shared.Number.{Number}
use ragpolyglot_demo.Shared.Json.{Js}
use ragpolyglot_demo.Shared.Types.{DocumentStatus, DocumentProgressStage}
use ragpolyglot_demo.Shared.Records.{DocumentSummary}
use ragpolyglot_demo.Shared.Labels.{stage_label, label_for, format_document_progress_label}

unfoldable pub starts_with : Text → Text → Bool
starts_with [] s = true
starts_with (c ∷ p) [] = false
starts_with (c ∷ p) (d ∷ s) = c == d && starts_with p s

abbrev pub is_paused : DocumentStatus → Bool
is_paused DocumentStatus.paused = true
is_paused _ = false

stage_label-starts :
    (js : Js) (paused : Bool) (stage : Option DocumentProgressStage) (finished : Option Number)
    (total : Number) (label : Text)
    → stage_label js paused stage finished total ≡ some label
    → starts_with (codes "Paused") label ≡ paused
unfolding starts_with
stage_label-starts js true none finished total label h = ground arith
stage_label-starts js false none finished total label h = ground arith
stage_label-starts js true (some DocumentProgressStage.waiting_for_ocr) finished total label h =
    ground arith
stage_label-starts js false (some DocumentProgressStage.waiting_for_ocr) finished total label h =
    ground arith
stage_label-starts js true (some DocumentProgressStage.extracting) finished total label h =
    ground arith
stage_label-starts js false (some DocumentProgressStage.extracting) finished total label h =
    ground arith
stage_label-starts js true (some DocumentProgressStage.embedding) finished total label h =
    ground arith
stage_label-starts js false (some DocumentProgressStage.embedding) finished total label h =
    ground arith

label_for-starts :
    (js : Js) (status : DocumentStatus) (stage : Option DocumentProgressStage)
    (finished : Option Number) (total : Number) (label : Text)
    → label_for js status stage finished total ≡ some label
    → starts_with (codes "Paused") label ≡ is_paused status
label_for-starts js DocumentStatus.processing stage finished total label h =
    stage_label-starts js false stage finished total label h
label_for-starts js DocumentStatus.paused stage finished total label h =
    stage_label-starts js true stage finished total label h
label_for-starts js DocumentStatus.uploading stage finished total label h = cc
label_for-starts js DocumentStatus.ready stage finished total label h = cc
label_for-starts js DocumentStatus.failed stage finished total label h = cc

-- A label of the progress starts with "Paused" if and only if the document is paused, whatever its
-- stage and its counts.
pub format_document_progress_label-starts :
    (js : Js) (doc : DocumentSummary) (label : Text)
    → format_document_progress_label js doc ≡ some label
    → starts_with (codes "Paused") label ≡ is_paused doc.status
unfolding format_document_progress_label
format_document_progress_label-starts js doc label h =
    label_for-starts js doc.status doc.progress_stage doc.progress_done _ label h
