-- ===== src/Tests/Documents.antt =====
-- The documents of the gateway with a document service that knows one document.
use ragpolyglot_demo.Base.{
  ◌+◌, ◌≡◌, refl, true, false, Option, none, some, [], ◌∷◌, ◌==◌, ◌⊎◌, inl, inr, map, length,
  if◌then◌else◌,
}
use ragpolyglot_demo.Base.Text.{Text, codes, is_empty, is_space, trim, trim_start, trim_end}
use ragpolyglot_demo.Shared.Types.{DocumentStatus}
use ragpolyglot_demo.Shared.Records.{Nullable, Document}
use ragpolyglot_demo.Documents.Upload.{UploadError}
use ragpolyglot_demo.Documents.Api.{Thrown, Remote, Api, send}
use ragpolyglot_demo.Documents.Public.{normalized_ocr_lang}
use ragpolyglot_demo.Documents.Public.Urls.{has_slash}
use ragpolyglot_demo.Documents.Service.{
  resolved_title, start_summarize, pause_summarize, resume_summarize, set_ocr_lang, pause_document,
  resume_document, rename_document, File, upload_document, retry_document, delete_document,
  get_document_by_id, get_all_documents,
}
use ragpolyglot_demo.Documents.Service.Deleted.{delete_document-failed}
use ragpolyglot_demo.Documents.Service.Uploaded.{Settles, upload_document-Settles}
use ragpolyglot_demo.Documents.Service.Retried.{
  get_request, retry_request, HasFile, retry_document-requests,
}
use ragpolyglot_demo.Documents.Service.Hidden.{ArePublic, ShowsPublic, handlers-ShowsPublic}
use ragpolyglot_demo.Tests.Shared.{ascii_js}
use ragpolyglot_demo.Tests.Search.{map_client}

abbrev stored : Document
stored = record {
  id = codes "d1";
  title = codes "A book";
  file_path = some (codes "/uploads/1.pdf");
  file_ext = none;
  status = DocumentStatus.failed;
  error_reason = none;
  progress_stage = none;
  progress_done = none;
  progress_total = none;
  summarize_status = Nullable.undefined;
  summarize_done = none;
  summarize_total = none;
  summarize_error = none;
  uploaded_by = none;
  ocr_lang = none;
  ocr_engine = none;
  created_at = codes "2024";
  updated_at = codes "2024";
}

-- What stands behind the last slash.
abbrev behind_slash : Text → Text
behind_slash [] = []
behind_slash (c ∷ s) = if has_slash s then behind_slash s else if c == 47 then s else c ∷ s

-- Every unit is moved up, past the slash.
abbrev moved : Text → Text
moved s = map (λ c. c + 48) s

-- The service has a document, and fails to delete it.
abbrev service : Remote
service = record {
  service_url = codes "http://documents";
  worker_url = codes "http://worker";
  documents = λ rs. inr (some stored ∷ []);
  document = λ rs. inr (some stored);
  summary = λ rs. inr none;
  chunks = λ rs. inr [];
  ocr_languages = λ rs. inr none;
  deleted = λ rs. some (UploadError.response 503);
  encode_uri_component = moved;
  basename = behind_slash;
  extname = λ name. codes ".pdf";
  can_unlink = λ name. true;
}

abbrev gateway : Api map_client
gateway = record {
  requests = [];
  uploads = codes "1.pdf" ∷ [];
  redis = record { ready = true; server = λ key. none };
}

failed_deletion :
    (delete_document ascii_js service map_client (codes "d1") gateway).0
    ≡ inl (Thrown.client (UploadError.response 503))
unfolding delete_document send
failed_deletion = refl

delete_document-failed_example :
    ((delete_document ascii_js service map_client (codes "d1") gateway).1.uploads ≡ gateway.uploads)
    × ((delete_document ascii_js service map_client (codes "d1") gateway).1.redis ≡ gateway.redis)
delete_document-failed_example =
    delete_document-failed ascii_js service map_client (codes "d1") gateway
      (Thrown.client (UploadError.response 503)) failed_deletion

abbrev uploaded : File
uploaded = record { filename = codes "2.pdf"; originalname = some (codes "notes.pdf") }

titled : is_empty (resolved_title ascii_js service map_client none uploaded) ≡ false
unfolding trim trim_start trim_end is_space
titled = refl

upload_document-Settles_example :
    (length (upload_document ascii_js service map_client (some uploaded) none gateway).1.requests
      ≡ 1)
    × Settles ascii_js service map_client uploaded.filename
        (upload_document ascii_js service map_client (some uploaded) none gateway).0
        gateway.uploads
        (upload_document ascii_js service map_client (some uploaded) none gateway).1.uploads
upload_document-Settles_example =
    upload_document-Settles ascii_js service map_client uploaded none gateway titled

retry_document-requests_example :
    ((retry_document ascii_js service map_client (codes "d1") none gateway).1
      ≡ record gateway { requests = get_request ascii_js service map_client (codes "d1") ∷ [] })
    ⊎ ((hint : Option Text) × (normalized_ocr_lang ascii_js service none ≡ inr hint)
        × HasFile ascii_js service map_client (codes "d1") gateway
        × ((retry_document ascii_js service map_client (codes "d1") none gateway).1
            ≡ record gateway {
              requests =
                  retry_request ascii_js service map_client (codes "d1") hint
                  ∷ get_request ascii_js service map_client (codes "d1")
                  ∷ [];
            }))
retry_document-requests_example =
    retry_document-requests ascii_js service map_client (codes "d1") none gateway

handlers-ShowsPublic_example :
    ((w : Api map_client) → ArePublic (get_all_documents ascii_js service map_client w).0)
    × ShowsPublic ascii_js service map_client
        (get_document_by_id ascii_js service map_client (codes "d1"))
    × ShowsPublic ascii_js service map_client
        (start_summarize ascii_js service map_client (codes "d1") none)
    × ShowsPublic ascii_js service map_client
        (pause_summarize ascii_js service map_client (codes "d1"))
    × ShowsPublic ascii_js service map_client
        (resume_summarize ascii_js service map_client (codes "d1"))
    × ShowsPublic ascii_js service map_client
        (upload_document ascii_js service map_client (some uploaded) none)
    × ShowsPublic ascii_js service map_client
        (retry_document ascii_js service map_client (codes "d1") none)
    × ShowsPublic ascii_js service map_client
        (set_ocr_lang ascii_js service map_client (codes "d1") none)
    × ShowsPublic ascii_js service map_client
        (pause_document ascii_js service map_client (codes "d1"))
    × ShowsPublic ascii_js service map_client
        (resume_document ascii_js service map_client (codes "d1"))
    × ShowsPublic ascii_js service map_client
        (rename_document ascii_js service map_client (codes "d1") (codes "A book"))
handlers-ShowsPublic_example =
    handlers-ShowsPublic ascii_js service map_client (codes "d1") (codes "A book") none none none
      (some uploaded)
