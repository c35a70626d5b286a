-- ===== src/View/Documents/Requests.antt =====
-- apps/react-frontend/src/context/DocumentsProvider.tsx: the requests of the provider, and when it
-- loads the list.
pub mod Heard
use ragpolyglot_demo.Base.{
  Bool, true, false, ◌&&◌, not, Option, none, some, [], ◌∷◌, ◌++◌, ◌⊎◌, inl, inr, any, List,
  if◌then◌else◌,
}
use ragpolyglot_demo.Base.Text.{Text, codes}
use ragpolyglot_demo.Base.Order.{set_add}
use ragpolyglot_demo.Shared.Records.{DocumentSummary}
use ragpolyglot_demo.View.Documents.{
  View, Call, is_active, refresh, remove, apply_mapped_update, subscribe_active_documents,
}

-- The operations that send a request and show the document of its answer.
pub data Operation : Type 0 where
  retry change_ocr_lang pause resume rename start_summarize pause_summarize resume_summarize :
      Operation

abbrev invalid_message : Operation → Text
invalid_message retry = codes "Invalid retry response"
invalid_message change_ocr_lang = codes "Invalid OCR language response"
invalid_message pause = codes "Invalid pause response"
invalid_message resume = codes "Invalid resume response"
invalid_message rename = codes "Invalid rename response"
invalid_message start_summarize = codes "Invalid summarize response"
invalid_message pause_summarize = codes "Invalid summarize pause response"
invalid_message resume_summarize = codes "Invalid summarize resume response"

-- `subscribeDocument`
abbrev pub listen : Text → View → View
listen id v = record v { calls = v.calls ++ Call.subscribe_document id ∷ [] }

abbrev pub add_and_listen : Text → View → View
add_and_listen id v = record v {
  subscribed = set_add v.subscribed id;
  calls = v.calls ++ Call.subscribe_document id ∷ [];
}

-- What follows a request that was answered with a document.
abbrev pub afterwards : Operation → Text → DocumentSummary → View → View
afterwards retry id mapped v = listen id v
afterwards change_ocr_lang id mapped v = subscribe_active_documents (mapped ∷ []) v
afterwards pause id mapped v = listen id v
afterwards resume id mapped v = listen id v
afterwards rename id mapped v = v
afterwards start_summarize id mapped v = add_and_listen id v
afterwards pause_summarize id mapped v = listen id v
afterwards resume_summarize id mapped v = add_and_listen id v

-- The request has failed with a message, or was answered with what `mapApiDocument` makes of it;
-- `reload` is how the refresh ends that follows a failure. The state is that at the last answer,
-- and the result what is thrown or returned, if the operation returns the document.
unfoldable pub perform :
    Operation
    → Text
    → Text ⊎ Option DocumentSummary
    → Text ⊎ List DocumentSummary
    → View
    → View × (Text ⊎ DocumentSummary)
perform op id (inl message) reload v = (refresh reload v, inl message)
perform op id (inr none) reload v = (refresh reload v, inl (invalid_message op))
perform op id (inr (some mapped)) reload v =
    (afterwards op id mapped (apply_mapped_update id mapped v), inr mapped)

-- The effect of the first render and of a connection, which may be cancelled before the answer.
unfoldable pub load : Bool → Text ⊎ List DocumentSummary → View → View
load cancelled answer v = if cancelled then v else refresh answer v

-- Whether the list is fetched every three seconds.
unfoldable pub polls : Bool → View → Bool
polls on_agent_page v = any is_active v.documents && not on_agent_page

pub data Event : Type 0 where
  performed : Operation → Text → Text ⊎ Option DocumentSummary → Text ⊎ List DocumentSummary → Event
  removed : Text → Event
  loaded : Bool → Text ⊎ List DocumentSummary → Event
  refreshed : Text ⊎ List DocumentSummary → Event

abbrev pub on_event : Event → View → View
on_event (performed op id answer reload) v = (perform op id answer reload v).0
on_event (removed id) v = remove id v
on_event (loaded cancelled answer) v = load cancelled answer v
on_event (refreshed answer) v = refresh answer v

unfoldable pub on_events : List Event → View → View
on_events [] v = v
on_events (e ∷ events) v = on_events events (on_event e v)
