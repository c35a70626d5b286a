-- ===== src/Documents/Service/Retried.antt =====
-- A retry is requested only for a file that is still there.
use ragpolyglot_demo.Base.{
  ◌≡◌, refl, true, ◌⊎◌, inl, inr, none, some, Option, [], ◌∷◌, Option-cases, Bool-cases,
}
use ragpolyglot_demo.Base.Text.{Text, codes}
use ragpolyglot_demo.Base.Order.{contains}
use ragpolyglot_demo.Shared.Json.{Js}
use ragpolyglot_demo.Shared.Records.{Document}
use ragpolyglot_demo.Rag.Redis.{RedisClient}
use ragpolyglot_demo.Documents.Upload.{UploadError}
use ragpolyglot_demo.Documents.Api.{Body, Method, Request, Thrown, Remote, Api, send}
use ragpolyglot_demo.Documents.Public.{docs_url, upload_filename_of, normalized_ocr_lang}
use ragpolyglot_demo.Documents.Service.{post_document, assert_upload_file_exists, retry_document}

module _ (js : Js) (remote : Remote) (redis_client : RedisClient) where
  abbrev pub get_request : Text → Request
  get_request id = record {
    method = Method.get;
    url = docs_url js remote (some id) [];
    body = Body.empty;
  }

  abbrev pub retry_request : Text → Option Text → Request
  retry_request id hint = record {
    method = Method.post;
    url = docs_url js remote (some id) (codes "/retry");
    body = Body.ocr_lang hint;
  }

  -- The file of the document is in the directory of uploads.
  abbrev pub HasFile : Text → Api redis_client → Type 0
  HasFile id w =
      (doc : Document) × (filename : Text) × (remote.document (get_request id ∷ w.requests)
        ≡ inr (some doc))
      × (upload_filename_of js remote doc.file_path ≡ some filename)
      × (contains filename w.uploads ≡ true)

  posted :
      (id : Text) (hint : Option Text) (w : Api redis_client) (r : UploadError ⊎ Option Document)
      → remote.document (retry_request id hint ∷ w.requests) ≡ r
      → (post_document js remote redis_client id (codes "/retry") (Body.ocr_lang hint) w).1
        ≡ record w { requests = retry_request id hint ∷ w.requests }
  unfolding send
  posted id hint w (inl e) p = rw p refl
  posted id hint w (inr payload) p = rw p refl

  abbrev Retried : Text → Option Text → Api redis_client → Type 0
  Retried id ocr_lang w =
      ((retry_document js remote redis_client id ocr_lang w).1
        ≡ record w { requests = get_request id ∷ w.requests })
      ⊎ ((hint : Option Text) × (normalized_ocr_lang js remote ocr_lang ≡ inr hint)
          × HasFile id w
          × ((retry_document js remote redis_client id ocr_lang w).1
              ≡ record w { requests = retry_request id hint ∷ get_request id ∷ w.requests }))

  hint_cases :
      (id : Text) (ocr_lang : Option Text) (w : Api redis_client) (doc : Document) (filename : Text)
      (r : Thrown ⊎ Option Text)
      → remote.document (get_request id ∷ w.requests) ≡ inr (some doc)
      → upload_filename_of js remote doc.file_path ≡ some filename
      → contains filename w.uploads ≡ true
      → normalized_ocr_lang js remote ocr_lang ≡ r
      → Retried id ocr_lang w
  unfolding retry_document assert_upload_file_exists send
  hint_cases id ocr_lang w doc filename (inl e) p f c n = inl (rw (p, f, c, n) refl)
  hint_cases id ocr_lang w doc filename (inr hint) p f c n = inr (
    hint,
    n,
    (doc, filename, p, f, c),
    rw (p, f, c, n) (posted id hint (record w { requests = get_request id ∷ w.requests }) _ refl),
  )

  reply_cases :
      (id : Text) (ocr_lang : Option Text) (w : Api redis_client)
      (r : UploadError ⊎ Option Document)
      → remote.document (get_request id ∷ w.requests) ≡ r
      → Retried id ocr_lang w
  unfolding retry_document assert_upload_file_exists send
  reply_cases id ocr_lang w (inl e) p = inl (rw p refl)
  reply_cases id ocr_lang w (inr none) p = inl (rw p refl)
  reply_cases id ocr_lang w (inr (some doc)) p =
      elim (Option-cases (upload_filename_of js remote doc.file_path)) [
        | inl f ↦ inl (rw (p, f) refl)
        | inr (filename, f) ↦ elim (Bool-cases (contains filename w.uploads)) [
          | inl c ↦ hint_cases id ocr_lang w doc filename _ p f c refl
          | inr c ↦ inl (rw (p, f, c) refl)
        ]
      ]

  -- `retryDocument` asks for the document, and requests the retry only if its file is in the
  -- directory of uploads and the hint is empty or a code of a language. It changes no file.
  pub retry_document-requests :
      (id : Text) (ocr_lang : Option Text) (w : Api redis_client)
      → ((retry_document js remote redis_client id ocr_lang w).1
          ≡ record w { requests = get_request id ∷ w.requests })
        ⊎ ((hint : Option Text) × (normalized_ocr_lang js remote ocr_lang ≡ inr hint)
            × HasFile id w
            × ((retry_document js remote redis_client id ocr_lang w).1
                ≡ record w { requests = retry_request id hint ∷ get_request id ∷ w.requests }))
  retry_document-requests id ocr_lang w = reply_cases id ocr_lang w _ refl
