-- ===== src/Text/Dict/Distinct.antt =====
-- Dictionaries in which no key stands twice, as every Python dict is.
use mathlib.Core.List.{append_assoc}
use switch_ops.Prelude.{◌≡◌, refl, ap, ◌∙◌, false, none, [], ◌∷◌, ◌++◌, arith, Bool-cases, inl, inr}
use switch_ops.Text.Chars.{Text, text_eq, text_eq_iff}
use switch_ops.Text.Dict.{Dict, lookup, insert, remove, lookup-insert, lookup-remove}

module _ {ℓ} {V : Type ℓ} where
  abbrev pub Distinct : Dict V → Type ℓ
  Distinct [] = Unit
  Distinct ((k, v) ∷ d) = (lookup k d ≡ none) × Distinct d

  pub Distinct-insert : (k : Text) (v : V) (d : Dict V) → Distinct d → Distinct (insert k v d)
  unfolding insert lookup
  Distinct-insert k v [] h = (refl, tt)
  Distinct-insert k v ((j, w) ∷ d) h = elim (Bool-cases (text_eq j k)) [
    | inl e ↦ rw e h
    | inr e ↦ rw e (
      rw (lookup-insert k j v d) (ground (arith, text_eq_iff k j, text_eq_iff j k, h.0)),
      Distinct-insert k v d h.1,
    )
  ]

  pub Distinct-remove : (k : Text) (d : Dict V) → Distinct d → Distinct (remove k d)
  unfolding remove
  Distinct-remove k [] h = tt
  Distinct-remove k ((j, w) ∷ d) h = elim (Bool-cases (text_eq j k)) [
    | inl e ↦ rw e (Distinct-remove k d h.1)
    | inr e ↦ rw e (rw (lookup-remove k j d) (ground (arith, h.0)), Distinct-remove k d h.1)
  ]

  lookup-append_later :
      (j k : Text) (v : V) (a d : Dict V) → lookup j (a ++ (k, v) ∷ d) ≡ none → text_eq k j ≡ false
  unfolding lookup
  lookup-append_later j k v [] d h = ground arith
  lookup-append_later j k v ((i, w) ∷ a) d h = elim (Bool-cases (text_eq i j)) [
    | inl e ↦ absurd (cc (rw e at h))
    | inr e ↦ lookup-append_later j k v a d (rw e at h)
  ]

  lookup-of_Distinct :
      (k : Text) (v : V) (a d : Dict V) → Distinct (a ++ (k, v) ∷ d) → lookup k a ≡ none
  unfolding lookup
  lookup-of_Distinct k v [] d h = refl
  lookup-of_Distinct k v ((j, w) ∷ a) d h = ground (
    arith,
    lookup-append_later j k v a d h.0,
    text_eq_iff k j,
    text_eq_iff j k,
    lookup-of_Distinct k v a d h.1,
  )

  insert_absent :
      (k : Text) (v : V) (a : Dict V) → lookup k a ≡ none → insert k v a ≡ a ++ (k, v) ∷ []
  unfolding insert lookup
  insert_absent k v [] h = refl
  insert_absent k v ((j, w) ∷ a) h = ground (arith, insert_absent k v a)

  -- Writing the entries of a dict one by one behind those before them builds it again.
  pub insert-append :
      (k : Text) (v : V) (a d : Dict V)
      → Distinct (a ++ (k, v) ∷ d)
      → insert k v a ++ d ≡ a ++ (k, v) ∷ d
  insert-append k v a d h =
      ap (λ t. t ++ d) (insert_absent k v a (lookup-of_Distinct k v a d h))
      ∙ append_assoc a ((k, v) ∷ []) d
