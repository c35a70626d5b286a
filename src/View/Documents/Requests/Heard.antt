-- ===== src/View/Documents/Requests/Heard.antt =====
-- What the provider takes to be subscribed is what it listens to.
use ragpolyglot_demo.Base.{
  ◌≡◌, refl, Bool, true, false, ◌&&◌, ◌||◌, not, Option, none, some, List, [], ◌∷◌, ◌++◌, ◌⊎◌, inl,
  inr, filter, all, arith,
}
use ragpolyglot_demo.Base.Text.{Text, str_eq, str_eq_iff}
use ragpolyglot_demo.Base.Order.{contains, contains-append, contains-set_add}
use ragpolyglot_demo.Shared.Records.{DocumentSummary}
use ragpolyglot_demo.View.Documents.Subscribed.{refresh-all}
use ragpolyglot_demo.View.Documents.{
  View, Call, is_active, refresh, remove, subscribe_if_active, subscribe_active_documents,
  apply_mapped_update,
}
use ragpolyglot_demo.View.Documents.Requests.{
  Operation, Event, listen, add_and_listen, afterwards, perform, load, on_event, on_events,
}

-- One call, for the room of the document `a`.
abbrev pub hear : Text → Bool → Call → Bool
hear a heard (Call.subscribe_document id) = str_eq a id || heard
hear a heard (Call.unsubscribe_document id) = not (str_eq a id) && heard

-- Whether the calls, in their order, end in the room of `a`.
unfoldable pub listens : Text → Bool → List Call → Bool
listens a heard [] = heard
listens a heard (c ∷ calls) = listens a (hear a heard c) calls

-- The provider listens to every document that it holds subscribed.
abbrev pub IsHeard : View → Type 0
IsHeard v = (a : Text) → contains a v.subscribed ≡ true → listens a false v.calls ≡ true

listens-snoc :
    (a : Text) (heard : Bool) (calls : List Call) (c : Call)
    → listens a heard (calls ++ c ∷ []) ≡ hear a (listens a heard calls) c
unfolding listens
listens-snoc a heard [] c = refl
listens-snoc a heard (b ∷ calls) c = listens-snoc a (hear a heard b) calls c

subscribe_if_active-IsHeard :
    (d : DocumentSummary) (v : View) → IsHeard v → IsHeard (subscribe_if_active d v)
unfolding contains
subscribe_if_active-IsHeard d v h a k = ground (
  arith,
  h a,
  k,
  contains-append a v.subscribed (d.id ∷ []),
  listens-snoc a false v.calls (Call.subscribe_document d.id),
)

subscribe_active-IsHeard :
    (docs : List DocumentSummary) (v : View)
    → IsHeard v
    → IsHeard (subscribe_active_documents docs v)
unfolding subscribe_active_documents
subscribe_active-IsHeard [] v h = h
subscribe_active-IsHeard (d ∷ docs) v h =
    subscribe_active-IsHeard docs _ (subscribe_if_active-IsHeard d v h)

refresh-IsHeard :
    (answer : Text ⊎ List DocumentSummary) (v : View) → IsHeard v → IsHeard (refresh answer v)
unfolding refresh
refresh-IsHeard (inl message) v h = h
refresh-IsHeard (inr mapped) v h = subscribe_active-IsHeard mapped _ h

contains-discard :
    (a id : Text) (xs : List Text)
    → contains a (filter (λ other. not (str_eq other id)) xs) ≡ true
    → (contains a xs && not (str_eq a id)) ≡ true
unfolding contains
contains-discard a id [] h = ground arith
contains-discard a id (x ∷ xs) h =
    ground (arith, contains-discard a id xs, str_eq_iff a x, str_eq_iff a id, str_eq_iff x id)

remove-IsHeard : (id : Text) (v : View) → IsHeard v → IsHeard (remove id v)
unfolding remove
remove-IsHeard id v h a k = ground (
  arith,
  h a,
  contains-discard a id v.subscribed k,
  listens-snoc a false v.calls (Call.unsubscribe_document id),
)

listen-IsHeard : (id : Text) (v : View) → IsHeard v → IsHeard (listen id v)
listen-IsHeard id v h a k =
    ground (arith, h a k, listens-snoc a false v.calls (Call.subscribe_document id))

add_and_listen-IsHeard : (id : Text) (v : View) → IsHeard v → IsHeard (add_and_listen id v)
add_and_listen-IsHeard id v h a k = ground (
  arith,
  h a,
  k,
  contains-set_add a v.subscribed id,
  listens-snoc a false v.calls (Call.subscribe_document id),
)

afterwards-IsHeard :
    (op : Operation) (id : Text) (mapped : DocumentSummary) (v : View)
    → IsHeard v
    → IsHeard (afterwards op id mapped v)
afterwards-IsHeard Operation.retry id mapped v h = listen-IsHeard id v h
afterwards-IsHeard Operation.change_ocr_lang id mapped v h =
    subscribe_active-IsHeard (mapped ∷ []) v h
afterwards-IsHeard Operation.pause id mapped v h = listen-IsHeard id v h
afterwards-IsHeard Operation.resume id mapped v h = listen-IsHeard id v h
afterwards-IsHeard Operation.rename id mapped v h = h
afterwards-IsHeard Operation.start_summarize id mapped v h = add_and_listen-IsHeard id v h
afterwards-IsHeard Operation.pause_summarize id mapped v h = listen-IsHeard id v h
afterwards-IsHeard Operation.resume_summarize id mapped v h = add_and_listen-IsHeard id v h

perform-IsHeard :
    (op : Operation) (id : Text) (answer : Text ⊎ Option DocumentSummary)
    (reload : Text ⊎ List DocumentSummary) (v : View)
    → IsHeard v
    → IsHeard (perform op id answer reload v).0
unfolding perform apply_mapped_update
perform-IsHeard op id (inl message) reload v h = refresh-IsHeard reload v h
perform-IsHeard op id (inr none) reload v h = refresh-IsHeard reload v h
perform-IsHeard op id (inr (some mapped)) reload v h = afterwards-IsHeard op id mapped _ h

load-IsHeard :
    (cancelled : Bool) (answer : Text ⊎ List DocumentSummary) (v : View)
    → IsHeard v
    → IsHeard (load cancelled answer v)
unfolding load
load-IsHeard true answer v h = h
load-IsHeard false answer v h = refresh-IsHeard answer v h

on_event-IsHeard : (e : Event) (v : View) → IsHeard v → IsHeard (on_event e v)
on_event-IsHeard (Event.performed op id answer reload) v h = perform-IsHeard op id answer reload v h
on_event-IsHeard (Event.removed id) v h = remove-IsHeard id v h
on_event-IsHeard (Event.loaded cancelled answer) v h = load-IsHeard cancelled answer v h
on_event-IsHeard (Event.refreshed answer) v h = refresh-IsHeard answer v h

on_events-IsHeard : (events : List Event) (v : View) → IsHeard v → IsHeard (on_events events v)
unfolding on_events
on_events-IsHeard [] v h = h
on_events-IsHeard (e ∷ events) v h = on_events-IsHeard events _ (on_event-IsHeard e v h)

all-listens :
    (docs : List DocumentSummary) (v : View)
    → IsHeard v
    → all (λ d. not (is_active d) || contains d.id v.subscribed) docs ≡ true
    → all (λ d. not (is_active d) || listens d.id false v.calls) docs ≡ true
all-listens [] v h k = refl
all-listens (d ∷ docs) v h k = ground (arith, h d.id, all-listens docs v h, k)

-- Whatever documents are requested, changed, removed and reloaded, with any answers of the server
-- and in any order, the calls to the socket leave the browser in the room of every document that
-- the provider holds subscribed, if they did so before; and after a refresh that then succeeds, in
-- the room of every document of its answer that is uploading, processing or being summarized.
pub refresh-on_events :
    (events : List Event) (mapped : List DocumentSummary) (v : View)
    → IsHeard v
    → IsHeard (on_events events v)
      × (all
            (λ d.
              not (is_active d)
              || listens d.id false (refresh (inr mapped) (on_events events v)).calls)
            mapped
          ≡ true)
refresh-on_events events mapped v h =
    let heard = on_events-IsHeard events v h in
    (
      heard,
      all-listens mapped (refresh (inr mapped) (on_events events v))
          (refresh-IsHeard (inr mapped) _ heard) (refresh-all mapped (on_events events v)),
    )
