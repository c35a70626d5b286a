-- ===== src/Documents/Service/Hidden.antt =====
-- No handler shows the browser where a file is stored.
use ragpolyglot_demo.Base.{
  ◌≡◌, refl, false, ◌⊎◌, inl, inr, none, some, Option, List, All, [], ◌∷◌, arith, Bool-cases,
}
use ragpolyglot_demo.Base.Text.{Text, trim, is_empty}
use ragpolyglot_demo.Shared.Number.{Number}
use ragpolyglot_demo.Shared.Json.{Js}
use ragpolyglot_demo.Shared.Records.{Document}
use ragpolyglot_demo.Rag.Redis.{RedisClient}
use ragpolyglot_demo.Documents.Api.{Body, Thrown, Remote, Api, Act, continue, send}
use ragpolyglot_demo.Documents.Public.{to_public_document, and_public, public_documents}
use ragpolyglot_demo.Documents.Service.{
  post_document, Handler, get_all_documents, rename_to, File, upload_document, retry_document,
  get_document_by_id, start_summarize, pause_summarize, resume_summarize, set_ocr_lang,
  pause_document, resume_document, rename_document,
}

-- The document has no path of a file, and it has an id.
abbrev pub HidesPath : Document → Type 0
HidesPath doc = (doc.file_path ≡ none) × (is_empty doc.id ≡ false)

abbrev pub IsPublic : Thrown ⊎ Document → Type 0
IsPublic (inl e) = Unit
IsPublic (inr doc) = HidesPath doc

abbrev pub ArePublic : Thrown ⊎ List Document → Type 0
ArePublic (inl e) = Unit
ArePublic (inr docs) = All HidesPath docs

module _ (js : Js) (remote : Remote) where
  to_public_document-IsPublic : (o : Option Document) → IsPublic (to_public_document js remote o)
  unfolding to_public_document
  to_public_document-IsPublic none = tt
  to_public_document-IsPublic (some doc) = elim (Bool-cases (is_empty doc.id)) [
    | inl e ↦ rw e tt
    | inr e ↦ rw e (refl, e)
  ]

  and_public-ArePublic :
      (o : Thrown ⊎ Document) (rest : Thrown ⊎ List Document)
      → IsPublic o
      → ArePublic rest
      → ArePublic (and_public js remote o rest)
  and_public-ArePublic (inl e) rest h k = tt
  and_public-ArePublic (inr doc) (inl e) h k = tt
  and_public-ArePublic (inr doc) (inr docs) h k = (h, k)

  public_documents-ArePublic :
      (ds : List (Option Document)) → ArePublic (public_documents js remote ds)
  unfolding public_documents
  public_documents-ArePublic [] = tt
  public_documents-ArePublic (d ∷ ds) =
      and_public-ArePublic (to_public_document js remote d) (public_documents js remote ds)
        (to_public_document-IsPublic d) (public_documents-ArePublic ds)

module _ (js : Js) (remote : Remote) (redis_client : RedisClient) where
  continue-ArePublic :
      {A : Type 0} (r : (Thrown ⊎ A) × Api redis_client) (f : A → Act redis_client (List Document))
      → ((a : A) (w : Api redis_client) → ArePublic (f a w).0)
      → ArePublic (continue r f).0
  continue-ArePublic (inl e, w) f h = tt
  continue-ArePublic (inr a, w) f h = h a w

  -- The list of the documents shows no more than that.
  list-ShowsPublic :
      (w : Api redis_client) → ArePublic (get_all_documents js remote redis_client w).0
  unfolding get_all_documents
  list-ShowsPublic w =
      continue-ArePublic (send remote.documents _ w) _
        (λ ds w'. public_documents-ArePublic js remote ds)

  -- A handler that shows no more than that.
  abbrev pub ShowsPublic : Handler js remote redis_client Document → Type 0
  ShowsPublic m = (w : Api redis_client) → IsPublic (m w).0

  post-ShowsPublic :
      (id suffix : Text) (body : Body)
      → ShowsPublic (post_document js remote redis_client id suffix body)
  unfolding send to_public_document
  post-ShowsPublic id suffix body w = ground arith

  get-ShowsPublic : (id : Text) → ShowsPublic (get_document_by_id js remote redis_client id)
  unfolding send to_public_document get_document_by_id
  get-ShowsPublic id w = ground arith

  upload-ShowsPublic :
      (file : Option File) (title : Option Text)
      → ShowsPublic (upload_document js remote redis_client file title)
  unfolding upload_document send to_public_document
  upload-ShowsPublic file title w = ground arith

  rename-ShowsPublic : (id title : Text) → ShowsPublic (rename_to js remote redis_client id title)
  rename-ShowsPublic id [] w = tt
  rename-ShowsPublic id (c ∷ title) w = post-ShowsPublic id _ _ w

  retry-ShowsPublic :
      (id : Text) (ocr_lang : Option Text)
      → ShowsPublic (retry_document js remote redis_client id ocr_lang)
  unfolding retry_document send to_public_document
  retry-ShowsPublic id ocr_lang w = ground arith

  resume-ShowsPublic : (id : Text) → ShowsPublic (resume_document js remote redis_client id)
  unfolding resume_document send to_public_document
  resume-ShowsPublic id w = ground arith

  set_ocr_lang-ShowsPublic :
      (id : Text) (ocr_lang : Option Text)
      → ShowsPublic (set_ocr_lang js remote redis_client id ocr_lang)
  unfolding set_ocr_lang send to_public_document
  set_ocr_lang-ShowsPublic id ocr_lang w = ground arith

  -- Whatever the document service answers, a document that a handler returns, alone or in the list
  -- of all documents, has an id, and it does not say where its file is stored.
  pub handlers-ShowsPublic :
      (id title : Text) (ocr_lang file_title : Option Text) (chars : Option Number)
      (file : Option File)
      → ((w : Api redis_client) → ArePublic (get_all_documents js remote redis_client w).0)
        × ShowsPublic (get_document_by_id js remote redis_client id)
        × ShowsPublic (start_summarize js remote redis_client id chars)
        × ShowsPublic (pause_summarize js remote redis_client id)
        × ShowsPublic (resume_summarize js remote redis_client id)
        × ShowsPublic (upload_document js remote redis_client file file_title)
        × ShowsPublic (retry_document js remote redis_client id ocr_lang)
        × ShowsPublic (set_ocr_lang js remote redis_client id ocr_lang)
        × ShowsPublic (pause_document js remote redis_client id)
        × ShowsPublic (resume_document js remote redis_client id)
        × ShowsPublic (rename_document js remote redis_client id title)
  unfolding start_summarize pause_summarize resume_summarize pause_document rename_document
  handlers-ShowsPublic id title ocr_lang file_title chars file = (
    list-ShowsPublic,
    get-ShowsPublic id,
    post-ShowsPublic id _ _,
    post-ShowsPublic id _ _,
    post-ShowsPublic id _ _,
    upload-ShowsPublic file file_title,
    retry-ShowsPublic id ocr_lang,
    set_ocr_lang-ShowsPublic id ocr_lang,
    post-ShowsPublic id _ _,
    resume-ShowsPublic id,
    rename-ShowsPublic id (trim title),
  )
