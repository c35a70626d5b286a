-- ===== src/Documents/Public/Urls.antt =====
-- The urls of the document service: one for each document and operation.
use ragpolyglot_demo.Base.{
  ◌≡◌, refl, sym, ◌∙◌, Bool, true, false, some, [], ◌∷◌, ◌++◌, ◌==◌, any, arith,
}
use ragpolyglot_demo.Base.Text.{Text, codes, is_empty}
use ragpolyglot_demo.Shared.Json.{Js}
use ragpolyglot_demo.Documents.Api.{Remote}
use ragpolyglot_demo.Documents.Public.{docs_url}

-- There is no slash in it.
abbrev pub has_slash : Text → Bool
has_slash s = any (λ c. c == 47) s

-- A suffix of a url: nothing, or a path.
abbrev pub is_path : Text → Bool
is_path [] = true
is_path (c ∷ s) = c == 47

append_cancel : (base s t : Text) → base ++ s ≡ base ++ t → s ≡ t
append_cancel [] s t e = e
append_cancel (c ∷ base) s t e = append_cancel base s t (cc e)

-- A name without a slash ends where a path begins.
split_at_path :
    (a b s t : Text)
    → has_slash a ≡ false
    → has_slash b ≡ false
    → is_path s ≡ true
    → is_path t ≡ true
    → a ++ s ≡ b ++ t
    → (a ≡ b) × (s ≡ t)
split_at_path [] [] s t p q x y e = (refl, e)
split_at_path [] (c ∷ b) s t p q x y e = ground (arith, e, q, x)
split_at_path (c ∷ a) [] s t p q x y e = ground (arith, e, p, y)
split_at_path (c ∷ a) (d ∷ b) s t p q x y e =
    let (f, g) = split_at_path a b s t (ground (arith, p)) (ground (arith, q)) x y (cc e) in
    ground (arith, e, f, g)

module _ (js : Js) (remote : Remote) where
  docs_url-some :
      (a suffix : Text)
      → is_empty a ≡ false
      → docs_url js remote (some a) suffix
        ≡ (remote.service_url ++ codes "/api/documents")
          ++ codes "/"
          ++ (remote.encode_uri_component a ++ suffix)
  unfolding docs_url
  docs_url-some a suffix p = rw p refl

  -- Two urls of documents are the same text only for the same document and the same operation,
  -- before a client resolves the segments `.` and `..` in them. The ids are not empty, a suffix is nothing or starts with a slash,
  -- and `encodeURIComponent` tells ids apart and writes no slash.
  pub docs_url_injective :
      (a b suffix suffix' : Text)
      → ((s t : Text) → remote.encode_uri_component s ≡ remote.encode_uri_component t → s ≡ t)
      → ((s : Text) → has_slash (remote.encode_uri_component s) ≡ false)
      → is_empty a ≡ false
      → is_empty b ≡ false
      → is_path suffix ≡ true
      → is_path suffix' ≡ true
      → docs_url js remote (some a) suffix ≡ docs_url js remote (some b) suffix'
      → (a ≡ b) × (suffix ≡ suffix')
  docs_url_injective a b suffix suffix' injective no_slash p q x y e =
      let base = remote.service_url ++ codes "/api/documents" in
      let whole = sym (docs_url-some a suffix p) ∙ e ∙ docs_url-some b suffix' q in
      let (same, rest) =
        split_at_path (remote.encode_uri_component a) (remote.encode_uri_component b) suffix suffix'
          (no_slash a) (no_slash b) x y (append_cancel (base ++ codes "/") _ _ whole) in
      (injective a b same, rest)
