-- ===== src/Documents/Upload.antt =====
-- apps/api-gateway/src/documents/document-upload.ts: which files are accepted, how they are named,
-- and when a stored file is dropped again. `extname` is the path library's.
pub mod Names
use ragpolyglot_demo.Base.{
  ℕ, Bool, true, false, ◌||◌, not, Option, none, some, List, [], ◌∷◌, ◌++◌, ◌==◌, ltb, any,
  if◌then◌else◌,
}
use ragpolyglot_demo.Base.Text.{Text, codes, str_eq}
use ragpolyglot_demo.Base.Order.{contains}
use ragpolyglot_demo.Shared.Json.{Js}
use ragpolyglot_demo.Rag.Errors.{HttpException, bad_request}

abbrev pub allowed_extensions : List Text
allowed_extensions =
    codes ".txt" ∷ codes ".md" ∷ codes ".markdown" ∷ codes ".json" ∷ codes ".pdf" ∷ []

module _ (js : Js) (extname : Text → Text) where
  abbrev pub extension : Text → Text
  extension original = js.lower (extname original)

  -- `filename`; the suffix is the time, a hyphen and a random number.
  unfoldable pub upload_filename : Text → Text → Text
  upload_filename unique_suffix original = unique_suffix ++ extension original

  -- `fileFilter`: the exception, or `none` for a file that is accepted.
  unfoldable pub file_filter : Text → Option HttpException
  file_filter original =
      if not (contains (extension original) allowed_extensions)
      then some (
          bad_request (
            codes "Unsupported file type \""
            ++ (extension original ++ codes "\". Allowed: .txt, .md, .markdown, .json, .pdf")))
      else none

-- Why a file is not taken: the exception of `fileFilter`, or its size, by `limits`.
pub data UploadRefusal : Type 0 where
  refused : HttpException → UploadRefusal
  limit_file_size : UploadRefusal

abbrev refused_or : Option HttpException → Bool → Option UploadRefusal
refused_or (some e) too_large = some (refused e)
refused_or none too_large = if too_large then some limit_file_size else none

-- `uploadInterceptorOptions` in the hands of multer, which calls `fileFilter` before it reads the
-- file; `exceeds` is its test of a size against `limits.fileSize`.
unfoldable pub intercept_upload :
    Js → (Text → Text) → (ℕ → ℕ → Bool) → ℕ → Text → ℕ → Option UploadRefusal
intercept_upload js extname exceeds max_upload_bytes original size =
    refused_or (file_filter js extname original) (exceeds max_upload_bytes size)

-- An error of the HTTP client with its response's status or its code, or another error.
pub data UploadError : Type 0 where
  response : ℕ → UploadError
  no_response : Option Text → UploadError
  other : UploadError

abbrev code_is : Option Text → Text → Bool
code_is none name = false
code_is (some code) name = str_eq code name

unfoldable pub should_discard_upload_after_failure : UploadError → Bool
should_discard_upload_after_failure other = true
should_discard_upload_after_failure (response status) = ltb status 500
should_discard_upload_after_failure (no_response code) =
    code_is code (codes "ECONNREFUSED") || code_is code (codes "ENOTFOUND")
