-- ===== src/Documents/Service.antt =====
-- apps/api-gateway/src/documents/document.service.ts: documents as the gateway serves them.
pub mod Deleted
pub mod Uploaded
pub mod Retried
pub mod Hidden
use ragpolyglot_demo.Base.{
  Bool, true, false, Option, none, some, List, [], ◌∷◌, ◌++◌, ◌⊎◌, inl, inr, if◌then◌else◌, or_else,
}
use ragpolyglot_demo.Base.Text.{Text, codes, trim}
use ragpolyglot_demo.Shared.Number.{Number}
use ragpolyglot_demo.Shared.Json.{as_array, Json, Js}
use ragpolyglot_demo.Shared.Records.{Document}
use ragpolyglot_demo.Rag.Errors.{bad_request}
use ragpolyglot_demo.Rag.Redis.{RedisClient}
use ragpolyglot_demo.Documents.Upload.{UploadError, should_discard_upload_after_failure}
use ragpolyglot_demo.Documents.Api.{
  Body, Method, Thrown, Remote, Api, Act, return, throw, ◌>>=◌, ◌>>◌, on_error, send, can_access,
  unlink, incr,
}
use ragpolyglot_demo.Documents.Public.{
  gone, docs_url, upload_filename_of, to_public_document, public_documents, normalized_ocr_lang,
  or_if_empty, trimmed_text, upload_error,
}

pub record File : Type 0 where
  pub filename : Text
  pub originalname : Option Text

abbrev pub rag_documents_version_key : Text
rag_documents_version_key = codes "rag:documents:version"

module _ (js : Js) (remote : Remote) (redis_client : RedisClient) where
  abbrev pub Handler : Type 0 → Type 0
  Handler A = Act redis_client A

  abbrev pub raise : {A : Type 0} → Thrown ⊎ A → Handler A
  raise outcome = λ w. (outcome, w)

  abbrev pub get_document : Text → Handler (Option Document)
  get_document id =
      send remote.document
        (record { method = Method.get; url = docs_url js remote (some id) []; body = Body.empty })

  -- `this.httpService.post<DocumentRecord>` and `toPublicDocument` of the answer
  abbrev pub post_document : Text → Text → Body → Handler Document
  post_document id suffix body = do
    payload ←
        send remote.document
          (record { method = Method.post; url = docs_url js remote (some id) suffix; body = body })
    raise (to_public_document js remote payload)

  unfoldable pub get_all_documents : Handler (List Document)
  get_all_documents = do
    payload ←
        send remote.documents
          (record { method = Method.get; url = docs_url js remote none []; body = Body.empty })
    raise (public_documents js remote payload)

  unfoldable pub get_document_by_id : Text → Handler Document
  get_document_by_id id = do payload ← get_document id; raise (to_public_document js remote payload)

  -- `{ summary: … }`; a payload that is null gives null.
  unfoldable pub get_document_summary : Text → Handler (Option Text)
  get_document_summary id = do
    payload ← send remote.summary (record {
      method = Method.get;
      url = docs_url js remote (some id) (codes "/summary");
      body = Body.empty;
    })
    return (or_else payload none)

  unfoldable pub start_summarize : Text → Option Number → Handler Document
  start_summarize id max_context_chars =
      post_document id (codes "/summarize") (Body.summarize max_context_chars)

  unfoldable pub pause_summarize : Text → Handler Document
  pause_summarize id = post_document id (codes "/summarize/pause") Body.empty

  unfoldable pub resume_summarize : Text → Handler Document
  resume_summarize id = post_document id (codes "/summarize/resume") Body.empty

  -- The document is logged by its id, which throws where there is none.
  abbrev pub logged : Option Document → Handler (Option Document)
  logged none = throw Thrown.type_error
  logged (some doc) = return (some doc)

  abbrev pub create_document : Text → Text → Handler Document
  create_document title filename = do
    payload ← send remote.document (record {
      method = Method.post;
      url = docs_url js remote none [];
      body = Body.create title (codes "/uploads/" ++ filename);
    })
    doc ← logged payload
    raise (to_public_document js remote doc)

  abbrev pub create_titled : Text → Text → Handler Document
  create_titled [] filename = throw (Thrown.http (bad_request (codes "Title is required.")))
  create_titled (c ∷ title) filename = create_document (c ∷ title) filename

  abbrev pub resolved_title : Option Text → File → Text
  resolved_title title file =
      or_if_empty js remote (trimmed_text js remote title)
        (trimmed_text js remote file.originalname)

  -- The catch block.
  abbrev pub discard : Text → Thrown → Api redis_client → Api redis_client
  discard filename e w =
      if should_discard_upload_after_failure (upload_error js remote e)
      then unlink remote filename w
      else w

  unfoldable pub upload_document : Option File → Option Text → Handler Document
  upload_document none title = throw (Thrown.http (bad_request (codes "File is required")))
  upload_document (some file) title =
      on_error (create_titled (resolved_title title file) file.filename) (discard file.filename)

  abbrev pub accessible : Bool → Handler (Unit {0})
  accessible true = return tt
  accessible false = throw (Thrown.http gone)

  abbrev pub assert_named : Option Text → Handler (Unit {0})
  assert_named none = throw (Thrown.http gone)
  assert_named (some filename) = do present ← can_access filename; accessible present

  -- `existing.data.filePath`, which throws for a payload that is null.
  abbrev pub path_of : Option Document → Handler (Option Text)
  path_of none = throw Thrown.type_error
  path_of (some doc) = return doc.file_path

  unfoldable pub assert_upload_file_exists : Option Text → Handler (Unit {0})
  assert_upload_file_exists file_path = assert_named (upload_filename_of js remote file_path)

  unfoldable pub retry_document : Text → Option Text → Handler Document
  retry_document id ocr_lang = do
    existing ← get_document id
    path ← path_of existing
    assert_upload_file_exists path
    hint ← raise (normalized_ocr_lang js remote ocr_lang)
    post_document id (codes "/retry") (Body.ocr_lang hint)

  unfoldable pub set_ocr_lang : Text → Option Text → Handler Document
  set_ocr_lang id ocr_lang = do
    hint ← raise (normalized_ocr_lang js remote ocr_lang)
    post_document id (codes "/ocr-lang") (Body.ocr_lang hint)

  unfoldable pub pause_document : Text → Handler Document
  pause_document id = post_document id (codes "/pause") Body.empty

  unfoldable pub resume_document : Text → Handler Document
  resume_document id = do
    existing ← get_document id
    path ← path_of existing
    assert_upload_file_exists path
    post_document id (codes "/resume") Body.empty

  abbrev pub rename_to : Text → Text → Handler Document
  rename_to id [] = throw (Thrown.http (bad_request (codes "Title is required.")))
  rename_to id (c ∷ title) = post_document id (codes "/rename") (Body.rename (c ∷ title))

  unfoldable pub rename_document : Text → Text → Handler Document
  rename_document id title = rename_to id (trim title)

  abbrev pub deletion : Option UploadError → UploadError ⊎ Unit {0}
  deletion none = inr tt
  deletion (some e) = inl e

  abbrev pub unlink_named : Option Text → Handler (Unit {0})
  unlink_named none = return tt
  unlink_named (some filename) = λ w. (inr tt, unlink remote filename w)

  unfoldable pub delete_document : Text → Handler (Unit {0})
  delete_document id = do
    existing ← get_document id
    path ← path_of existing
    send (λ rs. deletion (remote.deleted rs))
        (record {
          method = Method.delete;
          url = docs_url js remote (some id) [];
          body = Body.empty;
        })
    incr rag_documents_version_key
    unlink_named (upload_filename_of js remote path)

  unfoldable pub get_document_chunks : Text → Handler (List Json)
  get_document_chunks id = send remote.chunks (record {
    method = Method.get;
    url = docs_url js remote (some id) (codes "/chunks");
    body = Body.empty;
  })

  -- `Array.isArray(res.data) ? res.data : []`
  unfoldable pub get_ocr_languages : Handler (List Json)
  get_ocr_languages = do
    payload ← send remote.ocr_languages (record {
      method = Method.get;
      url = remote.worker_url ++ codes "/api/ocr-languages";
      body = Body.empty;
    })
    return (or_else (as_array payload) [])
