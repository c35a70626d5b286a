-- ===== src/Shared/Title/Laws.antt =====
-- What the title of a conversation looks like, whatever the query.
use ragpolyglot_demo.Base.{
  not, ℕ, zero, suc, ◌≤◌, ◌<◌, ◌≡◌, refl, Bool, true, false, ◌||◌, ◌==◌, [], ◌∷◌, ◌++◌, arith, All,
  All-if, All-take, Bool-cases, inl, inr, All-append, if◌then◌else◌, leb, length, take,
  length-append,
}
use ragpolyglot_demo.Base.Text.{Text, codes, is_space, trim}
use ragpolyglot_demo.Base.Trim.{All-trim}
use ragpolyglot_demo.Shared.Title.{collapse_from, collapse, shorten, conversation_title_from_query}

-- The only white space is the blank.
abbrev pub IsPlain : ℕ → Type 0
IsPlain c = (not (is_space c) || c == 32) ≡ true

blank_is_space : is_space 32 ≡ true
unfolding is_space
blank_is_space = refl

collapse_from-IsPlain : (before : Bool) (s : Text) → All IsPlain (collapse_from before s)
unfolding collapse_from
collapse_from-IsPlain before [] = tt
collapse_from-IsPlain before (c ∷ s) = elim (Bool-cases (is_space c)) [
  | inl blank ↦ rw blank (
      All-if IsPlain before _ _ (collapse_from-IsPlain true s)
        (rw blank_is_space, collapse_from-IsPlain true s))
  | inr other ↦ rw other ((rw other), collapse_from-IsPlain false s)
]

length-take_le : (n : ℕ) (s : Text) → length (take n s) ≤ n
length-take_le zero s = omega arith
length-take_le (suc n) [] = omega arith
length-take_le (suc n) (c ∷ s) = omega (arith, length-take_le n s)

cut_length :
    (t : Text) → (0 < length (take 57 t ++ codes "…")) × (length (take 57 t ++ codes "…") ≤ 60)
cut_length t = omega (arith, length-take_le 57 t, length-append (take 57 t) (codes "…"))

if_length :
    (b : Bool) (t u : Text)
    → (0 < length u) × (length u ≤ 60)
    → (b ≡ true → (0 < length t) × (length t ≤ 60))
    → (0 < length (if b then t else u)) × (length (if b then t else u) ≤ 60)
if_length true t u h k = k refl
if_length false t u h k = h

shorten-length : (t : Text) → (0 < length (shorten t)) × (length (shorten t) ≤ 60)
unfolding shorten
shorten-length [] = omega arith
shorten-length (c ∷ t) =
    if_length (leb (length (c ∷ t)) 60) (c ∷ t) _ (cut_length (c ∷ t)) (λ h. ground arith)

new_chat-IsPlain : All IsPlain (codes "New chat")
unfolding is_space
new_chat-IsPlain = ground arith

shorten-IsPlain : (t : Text) → All IsPlain t → All IsPlain (shorten t)
unfolding shorten is_space
shorten-IsPlain [] h = new_chat-IsPlain
shorten-IsPlain (c ∷ t) h =
    All-if IsPlain (leb (length (c ∷ t)) 60) _ _ h
      (All-append IsPlain (take 57 (c ∷ t)) (codes "…") (All-take IsPlain 57 (c ∷ t) h) (refl, tt))

-- A title has at least one unit and at most 60, and its only white space is the blank: it has no
-- line break, tab or other space, whatever the query.
pub conversation_title_shape :
    (query : Text)
    → (0 < length (conversation_title_from_query query))
      × (length (conversation_title_from_query query) ≤ 60)
      × All IsPlain (conversation_title_from_query query)
unfolding conversation_title_from_query collapse
conversation_title_shape query =
    let l = shorten-length (trim (collapse query)) in
    (l.0, l.1, shorten-IsPlain _ (All-trim IsPlain _ (collapse_from-IsPlain false query)))
