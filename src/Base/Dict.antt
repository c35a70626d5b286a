-- ===== src/Base/Dict.antt =====
-- A `Map` from strings, in the order of insertion.
use mathlib.Core.Path.{◌≡◌, refl, sym, subst, ap, ◌∙◌}
use mathlib.Core.Logic.{inl, inr}
use mathlib.Core.Bool.{Bool, true, ◌&&◌}
use mathlib.Core.Option.{Option, none, some}
use mathlib.Core.List.{List, [], ◌∷◌}
use native.Mathlib.Omega.{arith}
use ragpolyglot_demo.Base.Tests.{is_some, Bool-cases, if◌then◌else◌}
use ragpolyglot_demo.Base.Order.{contains, Distinct}
use ragpolyglot_demo.Base.Text.{Text, str_eq, str_eq_iff}

abbrev pub Dict {ℓ} : Type ℓ → Type ℓ
Dict V = List (Text × V)

module _ {ℓ} {V : Type ℓ} where
  -- `m.get(k)`
  unfoldable pub lookup : Text → Dict V → Option V
  lookup k [] = none
  lookup k ((j, v) ∷ m) = if str_eq k j then some v else lookup k m

  -- `m.set(k, v)`
  unfoldable pub insert : Text → V → Dict V → Dict V
  insert k v [] = (k, v) ∷ []
  insert k v ((j, w) ∷ m) = if str_eq k j then (j, v) ∷ m else (j, w) ∷ insert k v m

  -- `m.delete(k)`
  unfoldable pub erase : Text → Dict V → Dict V
  erase k [] = []
  erase k ((j, w) ∷ m) = let rest = erase k m in if str_eq k j then rest else (j, w) ∷ rest

  -- `[...m.keys()]`
  unfoldable pub keys : Dict V → List Text
  keys [] = []
  keys ((k, _) ∷ m) = k ∷ keys m

  -- No key stands twice.
  abbrev pub NodupKeys : Dict V → Type ℓ
  NodupKeys [] = Unit
  NodupKeys ((k, _) ∷ m) = (lookup k m ≡ none) × NodupKeys m

  pub lookup-insert :
      (k j : Text) (v : V) (m : Dict V)
      → lookup k (insert j v m) ≡ (if str_eq k j then some v else lookup k m)
  unfolding lookup insert
  lookup-insert k j v [] = refl
  lookup-insert k j v ((i, w) ∷ m) =
      ground (arith, lookup-insert k j v m, str_eq_iff k j, str_eq_iff j i, str_eq_iff k i)

  pub lookup-erase :
      (k j : Text) (m : Dict V) → lookup k (erase j m) ≡ (if str_eq k j then none else lookup k m)
  unfolding lookup erase
  lookup-erase k j [] = ground arith
  lookup-erase k j ((i, w) ∷ m) =
      ground (arith, lookup-erase k j m, str_eq_iff k j, str_eq_iff j i, str_eq_iff k i)

  pub insert-NodupKeys : (k : Text) (v : V) (m : Dict V) → NodupKeys m → NodupKeys (insert k v m)
  unfolding insert lookup
  insert-NodupKeys k v [] h = (refl, tt)
  insert-NodupKeys k v ((j, w) ∷ m) h =
      ground
        (arith, insert-NodupKeys k v m h.1, lookup-insert j k v m, str_eq_iff k j, str_eq_iff j k)

  pub erase-NodupKeys : (k : Text) (m : Dict V) → NodupKeys m → NodupKeys (erase k m)
  unfolding erase lookup
  erase-NodupKeys k [] h = tt
  erase-NodupKeys k ((j, w) ∷ m) h = ground (arith, erase-NodupKeys k m h.1, lookup-erase j k m)

  -- A test that every entry passes.
  abbrev pub all_entries : (Text → V → Bool) → Dict V → Bool
  all_entries q [] = true
  all_entries q ((k, v) ∷ m) = q k v && all_entries q m

  pub lookup-all_entries :
      (q : Text → V → Bool) (k : Text) (v : V) (m : Dict V)
      → all_entries q m ≡ true
      → lookup k m ≡ some v
      → q k v ≡ true
  unfolding lookup
  lookup-all_entries q k v [] h e = cc
  lookup-all_entries q k v ((j, w) ∷ m) h e =
      ground (arith, lookup-all_entries q k v m, str_eq_iff k j)

  pub contains-keys : (k : Text) (m : Dict V) → contains k (keys m) ≡ is_some (lookup k m)
  unfolding contains keys lookup
  contains-keys k [] = refl
  contains-keys k ((j, v) ∷ m) = ground (arith, contains-keys k m)

  pub keys-Distinct : (m : Dict V) → NodupKeys m → Distinct (keys m)
  unfolding keys
  keys-Distinct [] n = tt
  keys-Distinct ((k, v) ∷ m) n = (contains-keys k m ∙ ap is_some n.0, keys-Distinct m n.1)

  module _ {κ} (P : Text → V → Type κ) where
    -- What holds of every entry.
    abbrev pub AllEntries : Dict V → Type κ
    AllEntries [] = Unit
    AllEntries ((k, v) ∷ m) = P k v × AllEntries m

    pub lookup-AllEntries :
        (k : Text) (v : V) (m : Dict V) → AllEntries m → lookup k m ≡ some v → P k v
    unfolding lookup
    lookup-AllEntries k v [] h e = cc
    lookup-AllEntries k v ((j, w) ∷ m) h e = elim (Bool-cases (str_eq k j)) [
      | inl same ↦
          subst (λ x. P k x) (ground (arith, same, e))
            (subst (λ i. P i w) (sym ((str_eq_iff k j).0 same)) h.0)
      | inr other ↦ lookup-AllEntries k v m h.1 (ground (arith, other, e))
    ]

    pub insert-AllEntries :
        (k : Text) (v : V) (m : Dict V) → P k v → AllEntries m → AllEntries (insert k v m)
    unfolding insert
    insert-AllEntries k v [] p h = (p, tt)
    insert-AllEntries k v ((j, w) ∷ m) p h = elim (Bool-cases (str_eq k j)) [
      | inl same ↦ rw same (subst (λ i. P i v) ((str_eq_iff k j).0 same) p, h.1)
      | inr other ↦ rw other (h.0, insert-AllEntries k v m p h.1)
    ]
