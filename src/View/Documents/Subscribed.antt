-- ===== src/View/Documents/Subscribed.antt =====
-- Which documents the browser listens to.
use ragpolyglot_demo.Base.{
  ◌≡◌, refl, Bool, true, not, ◌||◌, ◌&&◌, List, [], ◌∷◌, inr, all, arith, Bool-cases, inl,
}
use ragpolyglot_demo.Base.Text.{Text, str_eq_refl}
use ragpolyglot_demo.Base.Order.{contains, contains-append}
use ragpolyglot_demo.Shared.Records.{DocumentSummary}
use ragpolyglot_demo.View.Documents.{
  View, is_active, refresh, subscribe_if_active, subscribe_active_documents,
}

subscribe_active-monotone :
    (a : Text) (docs : List DocumentSummary) (v : View)
    → contains a v.subscribed ≡ true
    → contains a (subscribe_active_documents docs v).subscribed ≡ true
unfolding subscribe_active_documents
subscribe_active-monotone a [] v h = h
subscribe_active-monotone a (d ∷ docs) v h =
    subscribe_active-monotone a docs _
      (ground (arith, h, contains-append a v.subscribed (d.id ∷ [])))

and_true : {a b : Bool} → a ≡ true → b ≡ true → (a && b) ≡ true
and_true h k = ground arith

subscribe_if_active-contains :
    (d : DocumentSummary) (v : View)
    → is_active d ≡ true
    → contains d.id (subscribe_if_active d v).subscribed ≡ true
unfolding contains
subscribe_if_active-contains d v h =
    ground (arith, h, contains-append d.id v.subscribed (d.id ∷ []), str_eq_refl d.id)

subscribe_active-first :
    (d : DocumentSummary) (docs : List DocumentSummary) (v : View)
    → (not (is_active d)
        || contains d.id (subscribe_active_documents docs (subscribe_if_active d v)).subscribed)
      ≡ true
subscribe_active-first d docs v = elim (Bool-cases (is_active d)) [
  | inl active ↦ ground (
    arith,
    subscribe_active-monotone d.id docs (subscribe_if_active d v)
        (subscribe_if_active-contains d v active),
  )
  | inr idle ↦ ground arith
]

subscribe_active-all :
    (docs : List DocumentSummary) (v : View)
    → all
        (λ d. not (is_active d) || contains d.id (subscribe_active_documents docs v).subscribed)
        docs
      ≡ true
unfolding subscribe_active_documents
subscribe_active-all [] v = refl
subscribe_active-all (d ∷ docs) v =
    and_true (subscribe_active-first d docs v) (subscribe_active-all docs (subscribe_if_active d v))

-- After a refresh that succeeded, every document that is uploading, processing or being summarized
-- is subscribed to.
pub refresh-all :
    (mapped : List DocumentSummary) (v : View)
    → all (λ d. not (is_active d) || contains d.id (refresh (inr mapped) v).subscribed) mapped
      ≡ true
unfolding refresh
refresh-all mapped v = subscribe_active-all mapped _
