-- ===== src/View/Upload/Accepted.antt =====
-- What the browser accepts and the gateway stores.
use ragpolyglot_demo.Base.{
  Bool, length, ◌<◌, ℕ, ◌≡◌, ◌≢◌, refl, sym, ap, ◌∙◌, true, false, none, some, List, [], ◌∷◌, take,
  arith,
}
use ragpolyglot_demo.Base.Text.{Text, codes, str_eq}
use ragpolyglot_demo.Base.Order.{contains}
use ragpolyglot_demo.Shared.Json.{Js}
use ragpolyglot_demo.Documents.Upload.{extension, upload_filename, file_filter, intercept_upload}
use ragpolyglot_demo.Documents.Upload.Names.{has_separator, upload_filename-has_separator}
use ragpolyglot_demo.View.Upload.{
  accepted_extensions, valid, from_last_dot, starts_with_pdf_magic, lower_suffix, file_extension,
  validate_upload_file,
}

-- The file does not begin with a dot.
abbrev pub IsVisible : Text → Type 0
IsVisible [] = Unit
IsVisible (c ∷ name) = c ≢ 46

starts_with_pdf_magic-take :
    (bytes : List ℕ) → starts_with_pdf_magic (take 5 bytes) ≡ starts_with_pdf_magic bytes
unfolding starts_with_pdf_magic
starts_with_pdf_magic-take [] = refl
starts_with_pdf_magic-take (a ∷ []) = refl
starts_with_pdf_magic-take (a ∷ b ∷ []) = refl
starts_with_pdf_magic-take (a ∷ b ∷ c ∷ []) = refl
starts_with_pdf_magic-take (a ∷ b ∷ c ∷ d ∷ bytes) = refl

module _ (js : Js) where
  lower_suffix_lem :
      (s : Text)
      → contains (lower_suffix js s) accepted_extensions ≡ true
      → lower_suffix js s ≡ js.lower s
  unfolding contains str_eq
  lower_suffix_lem [] h = ground (arith, h)
  lower_suffix_lem (c ∷ s) h = refl

  validate_upload_file-valid :
      (name : Text) (bytes : List ℕ)
      → validate_upload_file js name (some bytes) ≡ valid
      → (contains (file_extension js name) accepted_extensions ≡ true)
        × (str_eq (file_extension js name) (codes ".pdf") ≡ starts_with_pdf_magic (take 5 bytes))
  unfolding validate_upload_file
  validate_upload_file-valid name bytes h = ground (arith, h)

  same_extension :
      (extname : Text → Text) (name : Text)
      → extname name ≡ from_last_dot name
      → contains (file_extension js name) accepted_extensions ≡ true
      → extension js extname name ≡ file_extension js name
  same_extension extname name law h =
      ap js.lower law ∙ sym (lower_suffix_lem (from_last_dot name) h)

  accepted_extension :
      (extname : Text → Text) (name : Text)
      → extension js extname name ≡ file_extension js name
      → contains (file_extension js name) accepted_extensions ≡ true
      → file_filter js extname name ≡ none
  unfolding file_filter
  accepted_extension extname name same h =
      rw (ap (λ e. contains e accepted_extensions) same ∙ h) refl

  -- A file that the browser accepts, and that is shorter than the gateway's limit, is accepted by
  -- the gateway, which stores it under a name that has no slash or backslash and that ends in the
  -- extension of a PDF if and only if its content begins like one. This holds where `extname` finds
  -- the last dot, for a name without a slash or backslash that does not begin with a dot, where
  -- multer takes every file that is shorter than the limit, and where the suffix that the gateway
  -- makes up has no slash or backslash.
  pub intercept_upload-validate_upload_file :
      (extname : Text → Text) (exceeds : ℕ → ℕ → Bool) (max_upload_bytes : ℕ)
      (unique_suffix name : Text) (bytes : List ℕ)
      → ((file : Text)
          → IsVisible file
          → has_separator file ≡ false
          → extname file ≡ from_last_dot file)
      → ((limit size : ℕ) → size < limit → exceeds limit size ≡ false)
      → IsVisible name
      → has_separator name ≡ false
      → has_separator unique_suffix ≡ false
      → length bytes < max_upload_bytes
      → validate_upload_file js name (some bytes) ≡ valid
      → (intercept_upload js extname exceeds max_upload_bytes name (length bytes) ≡ none)
        × (has_separator (upload_filename js extname unique_suffix name) ≡ false)
        × (str_eq (extension js extname name) (codes ".pdf") ≡ starts_with_pdf_magic bytes)
  unfolding intercept_upload
  intercept_upload-validate_upload_file extname exceeds max_upload_bytes unique_suffix name bytes
        law fits visible plain clean short h =
      let checked = validate_upload_file-valid name bytes h in
      let same = same_extension extname name (law name visible plain) checked.0 in
      let accepted = accepted_extension extname name same checked.0 in
      (
        rw (accepted, fits max_upload_bytes (length bytes) short) refl,
        upload_filename-has_separator js extname unique_suffix name accepted clean,
        ap (λ e. str_eq e (codes ".pdf")) same ∙ checked.1 ∙ starts_with_pdf_magic-take bytes,
      )
