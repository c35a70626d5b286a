-- ===== src/View/Documents/Ids.antt =====
-- The ids in the list stay distinct.
use ragpolyglot_demo.Base.{
  ◌≡◌, refl, sym, ap, subst, ◌∙◌, Bool, true, false, List, [], ◌∷◌, ◌++◌, ◌⊎◌, inl, inr, map,
  filter, arith, if◌then◌else◌, All,
}
use ragpolyglot_demo.Base.Text.{Text, str_eq_iff}
use ragpolyglot_demo.Base.Order.{contains, contains-append, Distinct}
use ragpolyglot_demo.Shared.Json.{Js}
use ragpolyglot_demo.Shared.Records.{DocumentSummary, DocumentStatusUpdate}
use ragpolyglot_demo.View.Documents.{
  View, refresh, remove, apply_mapped_update, has_document, replace, on_status_update, shown,
  subscribe_active_documents,
}
use ragpolyglot_demo.View.Documents.Updates.{AllKept, on_status_update-AllKept}

abbrev pub ids : List DocumentSummary → List Text
ids docs = map (λ d. d.id) docs

contains-filter :
    (a : Text) (p : DocumentSummary → Bool) (docs : List DocumentSummary)
    → contains a (ids docs) ≡ false
    → contains a (ids (filter p docs)) ≡ false
unfolding contains
contains-filter a p [] h = refl
contains-filter a p (d ∷ docs) h = ground (arith, contains-filter a p docs)

Distinct-filter :
    (p : DocumentSummary → Bool) (docs : List DocumentSummary)
    → Distinct (ids docs)
    → Distinct (ids (filter p docs))
unfolding contains
Distinct-filter p [] h = tt
Distinct-filter p (d ∷ docs) h =
    ground (arith, contains-filter d.id p docs h.0, Distinct-filter p docs h.1)

ids-replace :
    (id : Text) (mapped : DocumentSummary) (docs : List DocumentSummary)
    → mapped.id ≡ id
    → ids (replace id mapped docs) ≡ ids docs
ids-replace id mapped [] h = refl
ids-replace id mapped (d ∷ docs) h =
    ground (arith, ids-replace id mapped docs h, str_eq_iff d.id id)

ids-append :
    (docs : List DocumentSummary) (d : DocumentSummary)
    → ids (docs ++ d ∷ []) ≡ ids docs ++ d.id ∷ []
ids-append [] d = refl
ids-append (x ∷ docs) d = ap (λ is. x.id ∷ is) (ids-append docs d)

Distinct-snoc :
    (docs : List DocumentSummary) (d : DocumentSummary)
    → Distinct (ids docs)
    → has_document d.id docs ≡ false
    → Distinct (ids (docs ++ d ∷ []))
unfolding contains
Distinct-snoc [] d h k = (refl, tt)
Distinct-snoc (x ∷ docs) d h k =
    let apart : contains x.id (ids docs ++ d.id ∷ []) ≡ false =
      contains-append x.id (ids docs) (d.id ∷ []) ∙ ground (arith, h.0, k) in
    (ap (contains x.id) (ids-append docs d) ∙ apart, Distinct-snoc docs d h.1 (ground (arith, k)))

AllKept-ids :
    (update : DocumentStatusUpdate) (docs docs' : List DocumentSummary)
    → AllKept update docs docs'
    → ids docs' ≡ ids docs
AllKept-ids update [] [] h = refl
AllKept-ids update [] (d ∷ docs) h = absurd h
AllKept-ids update (d ∷ docs) [] h = absurd h
AllKept-ids update (d ∷ docs) (d' ∷ docs') h = ground (arith, AllKept-ids update docs docs' h.1)

subscribed-documents :
    (docs : List DocumentSummary) (v : View)
    → (subscribe_active_documents docs v).documents ≡ v.documents
unfolding subscribe_active_documents
subscribed-documents [] v = refl
subscribed-documents (d ∷ docs) v = subscribed-documents docs _ ∙ ground arith

-- What the server's answers and the socket bring about.
pub data Action : Type 0 where
  refreshed : Text ⊎ List DocumentSummary → Action
  removed : Text → Action
  applied : Text → DocumentSummary → Action
  updated : DocumentStatusUpdate → Action

unfoldable pub act : Js → Action → View → View
act js (refreshed result) v = refresh result v
act js (removed id) v = remove id v
act js (applied id mapped) v = apply_mapped_update id mapped v
act js (updated update) v = record v {
  documents = shown (on_status_update js update v.documents) v.documents;
}

unfoldable pub act_all : Js → List Action → View → View
act_all js [] v = v
act_all js (a ∷ as') v = act_all js as' (act js a v)

-- The server lists a document once, and answers with the document that was asked for.
abbrev pub IsAnswer : Action → Type 0
IsAnswer (refreshed (inl message)) = Unit
IsAnswer (refreshed (inr mapped)) = Distinct (ids mapped)
IsAnswer (removed id) = Unit
IsAnswer (applied id mapped) = mapped.id ≡ id
IsAnswer (updated update) = Unit

applied-Distinct :
    (b : Bool) (id : Text) (mapped : DocumentSummary) (docs : List DocumentSummary)
    → has_document id docs ≡ b
    → mapped.id ≡ id
    → Distinct (ids docs)
    → Distinct (ids (if b then replace id mapped docs else docs ++ mapped ∷ []))
applied-Distinct true id mapped docs h e d = subst Distinct (sym (ids-replace id mapped docs e)) d
applied-Distinct false id mapped docs h e d =
    Distinct-snoc docs mapped d (ap (λ i. has_document i docs) e ∙ h)

act-Distinct :
    (js : Js) (a : Action) (v : View)
    → IsAnswer a
    → Distinct (ids v.documents)
    → Distinct (ids (act js a v).documents)
unfolding act refresh remove apply_mapped_update
act-Distinct js (refreshed (inl message)) v h d = d
act-Distinct js (refreshed (inr mapped)) v h d =
    subst (λ docs. Distinct (ids docs)) (sym (subscribed-documents mapped _)) h
act-Distinct js (removed id) v h d = Distinct-filter _ v.documents d
act-Distinct js (applied id mapped) v h d =
    applied-Distinct (has_document id v.documents) id mapped v.documents refl h d
act-Distinct js (updated update) v h d =
    subst Distinct
      (sym (AllKept-ids update v.documents _ (on_status_update-AllKept js update v.documents))) d

-- Whatever the server answers and the socket brings, in any order, the list shows no document twice,
-- if it did not at the start, the lists of the server do not and its answers to a change of a
-- document are about that document.
pub act_all-Distinct :
    (js : Js) (actions : List Action) (v : View)
    → All IsAnswer actions
    → Distinct (ids v.documents)
    → Distinct (ids (act_all js actions v).documents)
unfolding act_all
act_all-Distinct js [] v h d = d
act_all-Distinct js (a ∷ as') v h d =
    act_all-Distinct js as' (act js a v) h.1 (act-Distinct js a v h.0 d)
