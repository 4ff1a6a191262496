-- ===== src/Text/Dict.antt =====
-- Python's dict with texts for keys, as an association list in the order of insertion.
pub mod Distinct
use switch_ops.Prelude.{
  subst, ◌≡◌, refl, Option, none, some, List, [], ◌∷◌, arith, if◌then◌else◌, All, Bool-cases, inl,
  inr,
}
use switch_ops.Text.Chars.{Text, text_eq, text_eq_iff}

abbrev pub Dict {ℓ} : Type ℓ → Type ℓ
Dict V = List (Text × V)

module _ {ℓ} {V : Type ℓ} where
  -- d.get(k)
  unfoldable pub lookup : Text → Dict V → Option V
  lookup k [] = none
  lookup k ((j, v) ∷ d) = if text_eq j k then some v else lookup k d

  -- d[k] = v
  unfoldable pub insert : Text → V → Dict V → Dict V
  insert k v [] = (k, v) ∷ []
  insert k v ((j, w) ∷ d) = if text_eq j k then (j, v) ∷ d else (j, w) ∷ insert k v d

  -- d.pop(k, None)
  unfoldable pub remove : Text → Dict V → Dict V
  remove k [] = []
  remove k ((j, w) ∷ d) = let rest = remove k d in if text_eq j k then rest else (j, w) ∷ rest

  pub lookup-insert :
      (k j : Text) (v : V) (d : Dict V)
      → lookup j (insert k v d) ≡ (if text_eq k j then some v else lookup j d)
  unfolding lookup insert
  lookup-insert k j v [] = refl
  lookup-insert k j v ((i, w) ∷ d) =
      ground (arith, text_eq_iff k j, text_eq_iff i k, text_eq_iff i j, lookup-insert k j v d)

  pub lookup-remove :
      (k j : Text) (d : Dict V) → lookup j (remove k d) ≡ (if text_eq k j then none else lookup j d)
  unfolding lookup remove
  lookup-remove k j [] = ground arith
  lookup-remove k j ((i, w) ∷ d) =
      ground (arith, text_eq_iff k j, text_eq_iff i k, text_eq_iff i j, lookup-remove k j d)

  -- A property of all entries is kept by a write of one that has it, and by a removal.
  pub All-insert {κ} :
      (P : Text → V → Type κ) (k : Text) (v : V) (d : Dict V)
      → P k v
      → All (λ e. P e.0 e.1) d
      → All (λ e. P e.0 e.1) (insert k v d)
  unfolding insert
  All-insert P k v [] h hd = (h, tt)
  All-insert P k v ((j, w) ∷ d) h hd = elim (Bool-cases (text_eq j k)) [
    | inl e ↦ rw e (rw (← (text_eq_iff j k).0 e) at h, hd.1)
    | inr e ↦ rw e (hd.0, All-insert P k v d h hd.1)
  ]

  pub All-remove {κ} :
      (P : Text → V → Type κ) (k : Text) (d : Dict V)
      → All (λ e. P e.0 e.1) d
      → All (λ e. P e.0 e.1) (remove k d)
  unfolding remove
  All-remove P k [] hd = tt
  All-remove P k ((j, w) ∷ d) hd = elim (Bool-cases (text_eq j k)) [
    | inl e ↦ rw e (All-remove P k d hd.1)
    | inr e ↦ rw e (hd.0, All-remove P k d hd.1)
  ]

  -- What a lookup finds is an entry.
  pub All-lookup {κ} :
      (P : V → Type κ) (k : Text) (d : Dict V) {v : V}
      → All (λ e. P e.1) d
      → lookup k d ≡ some v
      → P v
  unfolding lookup
  All-lookup P k [] hd e = absurd (cc)
  All-lookup P k ((j, w) ∷ d) {v} hd e = elim (Bool-cases (text_eq j k)) [
    | inl f ↦ let q : w ≡ v = cc (rw f at e) in subst P q hd.0
    | inr f ↦ All-lookup P k d hd.1 (rw f at e)
  ]
