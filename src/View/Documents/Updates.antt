-- ===== src/View/Documents/Updates.antt =====
-- What a status update can change in the list.
use ragpolyglot_demo.Base.{
  ◌≡◌, refl, Bool, true, false, not, Option, none, some, List, [], ◌∷◌, ◌⊎◌, inl, inr, map, arith,
  if◌then◌else◌,
}
use ragpolyglot_demo.Base.Text.{Text, str_eq}
use ragpolyglot_demo.Shared.Json.{Js}
use ragpolyglot_demo.Shared.Types.{DocumentStatus}
use ragpolyglot_demo.Shared.Records.{DocumentSummary, DocumentStatusUpdate}
use ragpolyglot_demo.View.Documents.{
  in_progress, with_progress, with_summarize, update_document, Effect, ask_refresh, missing, show,
  is_settled, has_document, ends_summarize, normalized_of, effect_on, on_status_update, shown,
}

-- A document and what has become of it: its id and title are kept, its status changes at most from
-- uploading to processing or stays, and it is the document of the update unless nothing changed.
abbrev pub Kept : DocumentStatusUpdate → DocumentSummary → DocumentSummary → Type 0
Kept update doc doc' =
    (doc'.id ≡ doc.id)
    × (doc'.title ≡ doc.title)
    × ((doc'.status ≡ doc.status)
        ⊎ ((in_progress doc.status ≡ true) × (doc'.status ≡ DocumentStatus.processing)))
    × ((str_eq doc.id update.document_id ≡ true) ⊎ (doc' ≡ doc))

-- The lists are equally long, and their documents are related one by one.
abbrev pub AllKept : DocumentStatusUpdate → List DocumentSummary → List DocumentSummary → Type 0
AllKept update [] [] = Unit
AllKept update (doc ∷ docs) (doc' ∷ docs') = Kept update doc doc' × AllKept update docs docs'
AllKept update _ _ = ⊥

update_document-Kept :
    (normalized : Option DocumentStatus) (update : DocumentStatusUpdate) (doc : DocumentSummary)
    → Kept update doc (update_document normalized update doc)
unfolding update_document with_progress with_summarize
update_document-Kept normalized update doc = ground arith

map-AllKept :
    (normalized : Option DocumentStatus) (update : DocumentStatusUpdate)
    (docs : List DocumentSummary)
    → AllKept update docs (map (update_document normalized update) docs)
map-AllKept normalized update [] = tt
map-AllKept normalized update (doc ∷ docs) =
    (update_document-Kept normalized update doc, map-AllKept normalized update docs)

AllKept-refl :
    (update : DocumentStatusUpdate) (docs : List DocumentSummary) → AllKept update docs docs
AllKept-refl update [] = tt
AllKept-refl update (doc ∷ docs) = ((refl, refl, inl refl, inr refl), AllKept-refl update docs)

if-AllKept :
    (b : Bool) (x y : Effect) (update : DocumentStatusUpdate) (docs : List DocumentSummary)
    → AllKept update docs (shown x docs)
    → AllKept update docs (shown y docs)
    → AllKept update docs (shown (if b then x else y) docs)
if-AllKept true x y update docs h k = h
if-AllKept false x y update docs h k = k

step-AllKept :
    (b c : Bool) (normalized : Option DocumentStatus) (update : DocumentStatusUpdate)
    (docs : List DocumentSummary)
    → AllKept update docs (
        shown
          (if b
            then ask_refresh
            else if c
            then missing
            else show (map (update_document normalized update) docs))
          docs)
step-AllKept true c normalized update docs = AllKept-refl update docs
step-AllKept false true normalized update docs = AllKept-refl update docs
step-AllKept false false normalized update docs = map-AllKept normalized update docs

effect_on-AllKept :
    (status : Option Text) (normalized : Option DocumentStatus) (update : DocumentStatusUpdate)
    (docs : List DocumentSummary)
    → AllKept update docs (shown (effect_on status normalized update docs) docs)
effect_on-AllKept (some status) none update docs = AllKept-refl update docs
effect_on-AllKept (some status) (some s) update docs =
    step-AllKept (is_settled (some s)) (not (has_document update.document_id docs)) (some s) update
      docs
effect_on-AllKept none normalized update docs =
    step-AllKept (is_settled normalized) (not (has_document update.document_id docs)) normalized
      update docs

-- A status update keeps the documents of the list, their order, ids and titles; it changes none but
-- the document that it names, and of that one the status at most from uploading to processing, so
-- that a document that is paused, ready or failed is never shown as processing again by an event
-- that comes late.
pub on_status_update-AllKept :
    (js : Js) (update : DocumentStatusUpdate) (docs : List DocumentSummary)
    → AllKept update docs (shown (on_status_update js update docs) docs)
unfolding on_status_update
on_status_update-AllKept js update docs =
    if-AllKept (ends_summarize update.summarize_status) ask_refresh
      (effect_on update.status (normalized_of js update.status) update docs) update docs
      (AllKept-refl update docs)
      (effect_on-AllKept update.status (normalized_of js update.status) update docs)
