-- ===== src/Rag/Helpers/Ids.antt =====
-- The document scope of a query: normalising it gives one canonical list for each set of ids.
use ragpolyglot_demo.Base.{◌≡◌, refl, ◌∙◌, sym, ap, some, List, [], ◌∷◌}
use ragpolyglot_demo.Base.Text.{Text}
use ragpolyglot_demo.Base.Order.{set_from, sort}
use ragpolyglot_demo.Base.Sorted.{
  canonical, canonical-Ascending, contains-canonical, Ascending, SameMembers, Ascending-unique,
}
use ragpolyglot_demo.Shared.Json.{Js}
use ragpolyglot_demo.Rag.Helpers.{cleaned_ids, unless_empty, normalize_document_ids}

normalize-eq-canonical :
    (js : Js) (ids : List Text)
    → normalize_document_ids js (some ids) ≡ unless_empty (canonical (cleaned_ids js ids))
unfolding normalize_document_ids cleaned_ids set_from sort
normalize-eq-canonical js [] = refl
normalize-eq-canonical js (id ∷ ids) = refl

unless_empty-eq-some : (xs : List Text) (out : List Text) → unless_empty xs ≡ some out → xs ≡ out
unless_empty-eq-some [] out h = cc
unless_empty-eq-some (x ∷ xs) out h = cc

-- What is returned is ascending by code units, so it has no repetition, and its members are
-- exactly the ids that are given, trimmed and in lower case, but for the empty one.
pub normalize_document_ids_lem :
    (js : Js) (ids out : List Text)
    → normalize_document_ids js (some ids) ≡ some out
    → Ascending out × SameMembers out (cleaned_ids js ids)
normalize_document_ids_lem js ids out h =
    let e = unless_empty-eq-some _ out (sym (normalize-eq-canonical js ids) ∙ h) in
    rw (← e)
      (canonical-Ascending (cleaned_ids js ids), (λ a. contains-canonical a (cleaned_ids js ids)))

-- Two scopes with the same cleaned ids, in any order and any number of times, are normalised to
-- one list, or both to none.
pub normalize_document_ids_canonical :
    (js : Js) (ids ids' : List Text)
    → SameMembers (cleaned_ids js ids) (cleaned_ids js ids')
    → normalize_document_ids js (some ids) ≡ normalize_document_ids js (some ids')
normalize_document_ids_canonical js ids ids' same =
    let c = cleaned_ids js ids in
    let c' = cleaned_ids js ids' in
    normalize-eq-canonical js ids
    ∙ ap unless_empty (
        Ascending-unique _ _ (canonical-Ascending c) (canonical-Ascending c')
          (λ a. contains-canonical a c ∙ same a ∙ sym (contains-canonical a c')))
    ∙ sym (normalize-eq-canonical js ids')
