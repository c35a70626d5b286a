-- ===== src/Documents/Service/Uploaded.antt =====
-- What becomes of an uploaded file.
use ragpolyglot_demo.Base.{
  ◌≡◌, Bool, false, not, ◌⊎◌, inl, inr, some, Option, arith, if◌then◌else◌, filter, length, ◌+◌, ℕ,
  ◌≤◌, ◌≢◌, refl, true, none, ap, List, ltb, Bool-cases,
}
use ragpolyglot_demo.Base.Text.{Text, codes, str_eq, str_eq_iff, is_empty}
use ragpolyglot_demo.Shared.Json.{Js}
use ragpolyglot_demo.Shared.Records.{Document}
use ragpolyglot_demo.Rag.Redis.{RedisClient}
use ragpolyglot_demo.Documents.Upload.{UploadError, should_discard_upload_after_failure}
use ragpolyglot_demo.Documents.Api.{Thrown, Remote, Api, rethrow, send, unlink}
use ragpolyglot_demo.Documents.Public.{upload_error}
use ragpolyglot_demo.Documents.Service.{
  File, upload_document, create_titled, discard, resolved_title,
}

-- The document service has answered with an error of its own, or has not answered though it was
-- reached, so that it may have created the document.
abbrev pub IsUncertain : Thrown → Type 0
IsUncertain (Thrown.client (UploadError.response status)) = 500 ≤ status
IsUncertain (Thrown.client (UploadError.no_response none)) = Unit
IsUncertain (Thrown.client (UploadError.no_response (some code))) =
    (code ≢ codes "ECONNREFUSED") × (code ≢ codes "ENOTFOUND")
IsUncertain _ = ⊥

no_code-cases :
    (code : Text)
    → ((should_discard_upload_after_failure (UploadError.no_response (some code)) ≡ false)
        × ((code ≢ codes "ECONNREFUSED") × (code ≢ codes "ENOTFOUND")))
      ⊎ ((should_discard_upload_after_failure (UploadError.no_response (some code)) ≡ true)
          × ¬ ((code ≢ codes "ECONNREFUSED") × (code ≢ codes "ENOTFOUND")))
unfolding should_discard_upload_after_failure
no_code-cases code = elim (Bool-cases (str_eq code (codes "ECONNREFUSED"))) [
  | inl refused ↦ inr (rw refused refl, λ h. h.0 ((str_eq_iff code _).0 refused))
  | inr reached ↦ elim (Bool-cases (str_eq code (codes "ENOTFOUND"))) [
    | inl unknown ↦ inr (rw (reached, unknown) refl, λ h. h.1 ((str_eq_iff code _).0 unknown))
    | inr known ↦ inl (
      rw (reached, known) refl,
      (
        λ e. cc ((str_eq_iff code (codes "ECONNREFUSED")).1 e, reached),
        λ e. cc ((str_eq_iff code (codes "ENOTFOUND")).1 e, known),
      ),
    )
  ]
]

response-cases :
    (status : ℕ)
    → ((should_discard_upload_after_failure (UploadError.response status) ≡ false) × (500 ≤ status))
      ⊎ ((should_discard_upload_after_failure (UploadError.response status) ≡ true)
          × ¬ (500 ≤ status))
unfolding should_discard_upload_after_failure
response-cases status = elim (Bool-cases (ltb status 500)) [
  | inl low ↦ inr (low, λ h. ground (arith, low, h))
  | inr high ↦ inl (high, ground (arith, high))
]

module _ (js : Js) (remote : Remote) (redis_client : RedisClient) where
  -- Exactly the errors that are not uncertain drop the upload.
  discard-cases :
      (e : Thrown)
      → ((should_discard_upload_after_failure (upload_error js remote e) ≡ false) × IsUncertain e)
        ⊎ ((should_discard_upload_after_failure (upload_error js remote e) ≡ true)
            × ¬ IsUncertain e)
  unfolding should_discard_upload_after_failure
  discard-cases (Thrown.http e) = inr (refl, λ h. h)
  discard-cases Thrown.type_error = inr (refl, λ h. h)
  discard-cases (Thrown.client UploadError.other) = inr (refl, λ h. h)
  discard-cases (Thrown.client (UploadError.response status)) = response-cases status
  discard-cases (Thrown.client (UploadError.no_response none)) = inl (refl, tt)
  discard-cases (Thrown.client (UploadError.no_response (some code))) = no_code-cases code

  -- What the outcome makes of the uploads.
  abbrev pub Settles : Text → Thrown ⊎ Document → List Text → List Text → Type 0
  Settles filename (inr doc) before after = after ≡ before
  Settles filename (inl e) before after =
      (IsUncertain e × (after ≡ before))
      ⊎ ((¬ IsUncertain e)
          × (after ≡ (
              if remote.can_unlink filename
              then filter (λ f. not (str_eq f filename)) before
              else before)))

  rethrow-Settles :
      (filename : Text) (r : (Thrown ⊎ Document) × Api redis_client) (w : Api redis_client)
      → r.1.uploads ≡ w.uploads
      → Settles filename
          (rethrow r (discard js remote redis_client filename)).0
          w.uploads
          (rethrow r (discard js remote redis_client filename)).1.uploads
  unfolding unlink
  rethrow-Settles filename (inr doc, w') w same = same
  rethrow-Settles filename (inl e, w') w same = elim (discard-cases e) [
    | inl (keeps, uncertain) ↦ inl (uncertain, rw keeps same)
    | inr (drops, certain) ↦ inr (certain, rw drops (unlinked (remote.can_unlink filename)))
  ]
    where
      unlinked :
          (b : Bool)
          → (if b
              then record w' { uploads = filter (λ f. not (str_eq f filename)) w'.uploads }
              else w').uploads
            ≡ (if b then filter (λ f. not (str_eq f filename)) w.uploads else w.uploads)
      unlinked true = ap (λ us. filter (λ f. not (str_eq f filename)) us) same
      unlinked false = same

  create_titled-uploads :
      (title filename : Text) (w : Api redis_client)
      → (create_titled js remote redis_client title filename w).1.uploads ≡ w.uploads
  unfolding send
  create_titled-uploads title filename w = ground arith

  create_titled-requests :
      (file : File) (title : Option Text) (w : Api redis_client)
      → is_empty (resolved_title js remote redis_client title file) ≡ false
      → length (upload_document js remote redis_client (some file) title w).1.requests
        ≡ 1 + length w.requests
  unfolding upload_document send unlink
  create_titled-requests file title w h = ground (arith, h)

  -- `uploadDocument` with a file and a title sends one request. It keeps all files when it returns a
  -- document, and when it throws what the HTTP client threw for a response from 500 on or for no
  -- response at all, unless the connection was refused or the host was not found; after any other
  -- exception, that for a document that is null or has no id among them, the file is removed, if it
  -- can be, and no file of another name.
  pub upload_document-Settles :
      (file : File) (title : Option Text) (w : Api redis_client)
      → is_empty (resolved_title js remote redis_client title file) ≡ false
      → (length (upload_document js remote redis_client (some file) title w).1.requests
          ≡ 1 + length w.requests)
        × Settles file.filename
            (upload_document js remote redis_client (some file) title w).0
            w.uploads
            (upload_document js remote redis_client (some file) title w).1.uploads
  unfolding upload_document
  upload_document-Settles file title w h = (
    create_titled-requests file title w h,
    rethrow-Settles file.filename
        (create_titled js remote redis_client (resolved_title js remote redis_client title file)
          file.filename w)
        w (create_titled-uploads _ file.filename w),
  )
