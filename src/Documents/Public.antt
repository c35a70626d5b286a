-- ===== src/Documents/Public.antt =====
-- apps/api-gateway/src/documents/document.service.ts: the private helpers, from urls to the document
-- as the browser may see it.
pub mod Urls
use ragpolyglot_demo.Base.{
  Option, none, some, List, [], ◌∷◌, ◌++◌, ◌==◌, ◌⊎◌, inl, inr, if◌then◌else◌, or_else, ◌||◌,
}
use ragpolyglot_demo.Base.Text.{Text, codes, str_eq, is_empty, trim}
use ragpolyglot_demo.Shared.Json.{Json, Js}
use ragpolyglot_demo.Shared.Types.{SummarizeStatus}
use ragpolyglot_demo.Shared.Records.{Nullable, Document}
use ragpolyglot_demo.Shared.Ocr.{is_ocr_language_code}
use ragpolyglot_demo.Rag.Errors.{HttpException, bad_request}
use ragpolyglot_demo.Documents.Upload.{UploadError}
use ragpolyglot_demo.Documents.Api.{Thrown, Remote}

abbrev pub internal_error : Text → HttpException
internal_error message = record { status = 500; message = message }

abbrev pub gone : HttpException
gone = record {
  status = 410;
  message = codes "Original upload file is no longer available. Please upload again.";
}

module _ (js : Js) (remote : Remote) where
  unfoldable pub docs_url : Option Text → Text → Text
  docs_url none suffix = remote.service_url ++ codes "/api/documents"
  docs_url (some id) suffix =
      let base = remote.service_url ++ codes "/api/documents" in
      if is_empty id then base else base ++ codes "/" ++ (remote.encode_uri_component id ++ suffix)

  -- `uploadFilename`
  abbrev pub named : Text → Option Text
  named filename =
      if is_empty filename || str_eq filename (codes ".") || str_eq filename (codes "..")
      then none
      else some filename

  unfoldable pub upload_filename_of : Option Text → Option Text
  upload_filename_of none = none
  upload_filename_of (some file_path) =
      if is_empty file_path then none else named (remote.basename file_path)

  abbrev pub without_dot : Text → Text
  without_dot [] = []
  without_dot (c ∷ s) = if c == 46 then s else c ∷ s

  abbrev pub filled : Text → Option Text
  filled [] = none
  filled (c ∷ s) = some (c ∷ s)

  -- `fileExt`
  abbrev pub ext_of : Option Text → Option Text
  ext_of none = none
  ext_of (some filename) = filled (without_dot (js.lower (remote.extname filename)))

  unfoldable pub file_ext : Option Text → Option Text
  file_ext file_path = ext_of (upload_filename_of file_path)

  abbrev pub known_or_null : Nullable SummarizeStatus → Nullable SummarizeStatus
  known_or_null (Nullable.value status) = Nullable.value status
  known_or_null _ = Nullable.null

  -- The properties that `toPublicDocument` lists.
  abbrev public : Document → Document
  public doc = record doc {
    file_path = none;
    file_ext = file_ext doc.file_path;
    summarize_status = known_or_null doc.summarize_status;
    ocr_engine = none;
  }

  abbrev pub invalid_payload : Thrown
  invalid_payload = Thrown.http (internal_error (codes "Invalid document payload"))

  unfoldable pub to_public_document : Option Document → Thrown ⊎ Document
  to_public_document none = inl invalid_payload
  to_public_document (some doc) = if is_empty doc.id then inl invalid_payload else inr (public doc)

  -- `res.data.map((d) => this.toPublicDocument(d))`
  abbrev pub and_public : Thrown ⊎ Document → Thrown ⊎ List Document → Thrown ⊎ List Document
  and_public (inl e) _ = inl e
  and_public (inr d) (inl e) = inl e
  and_public (inr d) (inr ds) = inr (d ∷ ds)

  unfoldable pub public_documents : List (Option Document) → Thrown ⊎ List Document
  public_documents [] = inr []
  public_documents (d ∷ ds) = and_public (to_public_document d) (public_documents ds)

  -- The hint, or the exception for a code that is not one.
  abbrev pub hint_of : Option Text → Text → Thrown ⊎ Option Text
  hint_of none [] = inr none
  hint_of none (c ∷ s) = inl (Thrown.http (bad_request (codes "Invalid OCR language code")))
  hint_of (some code) hint = inr (filled hint)

  unfoldable pub normalized_ocr_lang : Option Text → Thrown ⊎ Option Text
  normalized_ocr_lang none = inr none
  normalized_ocr_lang (some ocr_lang) =
      hint_of (is_ocr_language_code (some (Json.string (trim ocr_lang)))) (trim ocr_lang)

  abbrev pub or_if_empty : Text → Text → Text
  or_if_empty [] t = t
  or_if_empty (c ∷ s) t = c ∷ s

  abbrev pub trimmed_text : Option Text → Text
  trimmed_text o = trim (or_else o [])

  abbrev pub upload_error : Thrown → UploadError
  upload_error (Thrown.client e) = e
  upload_error _ = UploadError.other
