-- ===== src/Tests/Upload.antt =====
-- An upload, from the browser to the name under which it is stored.
use ragpolyglot_demo.Base.{Bool, ltb, ◌<◌, arith, ℕ, ◌≡◌, refl, false, none, List, [], ◌∷◌}
use ragpolyglot_demo.Base.Text.{codes, str_eq, trim}
use ragpolyglot_demo.Base.Order.{contains}
use ragpolyglot_demo.Documents.Upload.{extension, upload_filename, intercept_upload}
use ragpolyglot_demo.Documents.Upload.Names.{has_separator}
use ragpolyglot_demo.View.Upload.{from_last_dot, starts_with_pdf_magic, validate_upload_file}
use ragpolyglot_demo.View.Upload.Accepted.{intercept_upload-validate_upload_file}
use ragpolyglot_demo.Tests.Shared.{ascii_js}

abbrev pdf_bytes : List ℕ
pdf_bytes = 37 ∷ 80 ∷ 68 ∷ 70 ∷ 45 ∷ 49 ∷ []

-- A size beyond the limit
abbrev beyond : ℕ → ℕ → Bool
beyond limit size = ltb limit size

beyond_fits : (limit size : ℕ) → size < limit → beyond limit size ≡ false
beyond_fits limit size h = ground (arith, h)

intercept_upload-validate_upload_file_example :
    (intercept_upload ascii_js from_last_dot beyond 1048576 (codes "a.b.PDF") 6 ≡ none)
    × (has_separator (upload_filename ascii_js from_last_dot (codes "17-4") (codes "a.b.PDF"))
        ≡ false)
    × (str_eq (extension ascii_js from_last_dot (codes "a.b.PDF")) (codes ".pdf")
        ≡ starts_with_pdf_magic pdf_bytes)
unfolding validate_upload_file from_last_dot starts_with_pdf_magic contains str_eq trim
intercept_upload-validate_upload_file_example =
    intercept_upload-validate_upload_file ascii_js from_last_dot beyond 1048576 (codes "17-4")
      (codes "a.b.PDF") pdf_bytes (λ file visible plain. refl) beyond_fits (λ e. ground (arith, e))
      refl refl (omega arith) refl
