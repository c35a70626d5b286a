-- ===== src/Config/Runtime/Values.antt =====
-- `normalizeValue` and `viewValue`: a value that is normalised is shown as it is.
use ragpolyglot_demo.Base.{
  subst, ◌≡◌, refl, ap, ◌∙◌, Bool, true, false, ◌||◌, [], ◌++◌, ◌⊎◌, inl, inr, if◌then◌else◌,
}
use ragpolyglot_demo.Base.Text.{Text, codes, str_eq, is_space, trim, trim_start, trim_end, is_empty}
use ragpolyglot_demo.Base.Trim.{trim_idem}
use ragpolyglot_demo.Shared.Json.{Json, Js}
use ragpolyglot_demo.Shared.Number.{Number}
use ragpolyglot_demo.Shared.Types.{ConfigValueKind}
use ragpolyglot_demo.Config.Settings.{ConfigSetting}
use ragpolyglot_demo.Config.Host.{ConfigError}
use ragpolyglot_demo.Config.Runtime.{
  is_integer, normalize_bool, normalize_int, normalize_kind, normalize_value, view_value,
}

-- What the language promises: a whole number is printed without white space around it, what is
-- printed is read as a whole number that is printed alike, and words in lower case stay as they are.
pub record IsPrinting (js : Js) (to_number : Text → Number) : Type 0 where
  pub lower_true : js.lower (codes "true") ≡ codes "true"
  pub lower_false : js.lower (codes "false") ≡ codes "false"
  pub print_trim :
      (n : Number)
      → is_integer n ≡ true
      → trim (js.to_string (Json.number n)) ≡ js.to_string (Json.number n)
  pub print_filled :
      (n : Number) → is_integer n ≡ true → is_empty (js.to_string (Json.number n)) ≡ false
  pub print_read :
      (n : Number)
      → is_integer n ≡ true
      → (is_integer (to_number (js.to_string (Json.number n))) ≡ true)
        × (js.to_string (Json.number (to_number (js.to_string (Json.number n))))
            ≡ js.to_string (Json.number n))

-- No value for a setting that is a boolean: what `null` is normalised to.
abbrev blank_for : ConfigValueKind → Text → Bool
blank_for ConfigValueKind.bool value = is_empty value
blank_for _ value = false

abbrev pub blank_bool : ConfigSetting → Text → Bool
blank_bool setting value = blank_for setting.kind value

two_tests-cases :
    (a b : Bool) (x y v : Text) (e : ConfigError)
    → (if a then inr x else if b then inr y else inl e) ≡ inr v
    → (v ≡ x) ⊎ ((b ≡ true) × (v ≡ y))
two_tests-cases true b x y v e h = inl (cc h)
two_tests-cases false true x y v e h = inr (refl, cc h)
two_tests-cases false false x y v e h = cc

module _ (js : Js) (to_number : Text → Number) (laws : IsPrinting js to_number) where
  normalize_bool-cases :
      (key t v : Text)
      → normalize_bool js to_number key t ≡ inr v
      → (v ≡ codes "true") ⊎ (v ≡ codes "false")
  normalize_bool-cases key t v h =
      let lower = js.lower t in
      let c =
        two_tests-cases
          (str_eq lower (codes "true") || str_eq lower (codes "1") || str_eq lower (codes "yes"))
          (str_eq lower (codes "false")
            || str_eq lower (codes "0")
            || str_eq lower (codes "no")
            || is_empty lower)
          (codes "true") (codes "false") v
          (ConfigError.bad_request (key ++ codes " must be a boolean (true/false)")) h in
      elim c [ inl e ↦ inl e | inr (_, e) ↦ inr e ]

  normalize_bool-again :
      (key t v : Text)
      → normalize_bool js to_number key t ≡ inr v
      → normalize_bool js to_number key (trim v) ≡ inr v
  unfolding trim trim_start trim_end is_space str_eq
  normalize_bool-again key t v h = elim (normalize_bool-cases key t v h) [
    | inl e ↦ rw (e, laws.lower_true) refl
    | inr e ↦ rw (e, laws.lower_false) refl
  ]

  printed_again :
      (key : Text) (n : Number)
      → is_integer n ≡ true
      → normalize_int js to_number key (trim (js.to_string (Json.number n)))
        ≡ inr (js.to_string (Json.number n))
  printed_again key n i =
      rw (laws.print_trim n i, laws.print_filled n i, (laws.print_read n i).0)
        (ap inr (laws.print_read n i).1)

  normalize_int-again :
      (key t v : Text)
      → normalize_int js to_number key t ≡ inr v
      → normalize_int js to_number key (trim v) ≡ inr v
  unfolding trim trim_start trim_end
  normalize_int-again key t v h =
      let c =
        two_tests-cases (is_empty t) (is_integer (to_number t)) (codes "")
          (js.to_string (Json.number (to_number t))) v
          (ConfigError.bad_request (key ++ codes " must be an integer")) h in
      elim c [ inl e ↦ rw e refl | inr (i, e) ↦ rw e (printed_again key (to_number t) i) ]

  normalize_kind-again :
      (kind : ConfigValueKind) (key t v : Text)
      → trim t ≡ t
      → normalize_kind js to_number kind key t ≡ inr v
      → normalize_kind js to_number kind key (trim v) ≡ inr v
  normalize_kind-again ConfigValueKind.string key t v e h = cc
  normalize_kind-again ConfigValueKind.bool key t v e h = normalize_bool-again key t v h
  normalize_kind-again ConfigValueKind.int key t v e h = normalize_int-again key t v h

  view_value-again :
      (s : ConfigSetting) (t v : Text)
      → normalize_kind js to_number s.kind s.key (trim t) ≡ inr v
      → view_value js to_number s v ≡ v
  unfolding view_value normalize_value
  view_value-again s t v h = rw (normalize_kind-again s.kind s.key (trim t) v (trim_idem t) h) refl

  normalize_kind-blank :
      (kind : ConfigValueKind) (key : Text)
      → blank_for kind [] ≡ false
      → normalize_kind js to_number kind key [] ≡ inr []
  normalize_kind-blank ConfigValueKind.string key b = refl
  normalize_kind-blank ConfigValueKind.bool key b = cc
  normalize_kind-blank ConfigValueKind.int key b = refl

  view_value-blank :
      (s : ConfigSetting) → blank_bool s [] ≡ false → view_value js to_number s [] ≡ []
  unfolding view_value normalize_value trim trim_start trim_end
  view_value-blank s b = rw (normalize_kind-blank s.kind s.key b) refl

  -- A value that is normalised is shown as it is, unless it is blank and the setting a boolean.
  pub view_value-normalize :
      (s : ConfigSetting) (raw : Json) (v : Text)
      → normalize_value js to_number s raw ≡ inr v
      → blank_bool s v ≡ false
      → view_value js to_number s v ≡ v
  unfolding normalize_value
  view_value-normalize s Json.null v h b =
      let e : [] ≡ v = cc h in
      subst (λ w. view_value js to_number s w ≡ w) e (view_value-blank s (ap (blank_bool s) e ∙ b))
  view_value-normalize s (Json.boolean x) v h b = view_value-again s _ v h
  view_value-normalize s (Json.number x) v h b = view_value-again s _ v h
  view_value-normalize s (Json.string x) v h b = view_value-again s _ v h
  view_value-normalize s (Json.array x) v h b = view_value-again s _ v h
  view_value-normalize s (Json.object x) v h b = view_value-again s _ v h
