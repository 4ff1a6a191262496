-- ===== src/Text/Sets.antt =====
-- `str.upper`, the order of texts, `in` on sequences and sets of texts, and `sorted` of a set.
use switch_ops.Prelude.{
  ◌≡◌, refl, subst, ℕ, ◌-◌, Bool, true, false, ◌&&◌, ◌||◌, not, List, [], ◌∷◌, ◌++◌, ltb, leb, ◌==◌,
  if◌then◌else◌, All, Bool-cases, inl, inr, arith,
}
use switch_ops.Text.Chars.{Text, text_eq, text_eq_iff}

-- One character may become two.
upper_char : ℕ → Text
upper_char c =
    if c == 0xdf
    then b'S' ∷ b'S' ∷ []
    else (if leb b'a' c && leb c b'z' || (leb 0xe0 c && leb c 0xfe && not (c == 0xf7))
        then c - 32
        else if c == 0xb5
        then 0x39c
        else if c == 0xff
        then 0x178
        else c)
      ∷ []

unfoldable pub upper : Text → Text
unfolding upper_char
upper [] = []
upper (c ∷ s) = upper_char c ++ upper s

-- s < t
unfoldable pub text_lt : Text → Text → Bool
text_lt s [] = false
text_lt [] (d ∷ t) = true
text_lt (c ∷ s) (d ∷ t) = ltb c d || (c == d && text_lt s t)

-- t in xs
unfoldable pub has : Text → List Text → Bool
has t [] = false
has t (x ∷ xs) = text_eq x t || has t xs

-- Into its place in a sorted list, once.
insert_sorted : Text → List Text → List Text
unfolding text_lt
insert_sorted t [] = t ∷ []
insert_sorted t (x ∷ xs) =
    let further = insert_sorted t xs in
    if text_eq x t then x ∷ xs else if text_lt t x then t ∷ x ∷ xs else x ∷ further

-- sorted(set(xs))
unfoldable pub sorted_set : List Text → List Text
unfolding insert_sorted
sorted_set [] = []
sorted_set (x ∷ xs) = insert_sorted x (sorted_set xs)

-- xs - ys, for sets
unfoldable pub minus_set : List Text → List Text → List Text
unfolding has
minus_set [] ys = []
minus_set (x ∷ xs) ys = let rest = minus_set xs ys in if has x ys then rest else x ∷ rest

-- The entries of a mapping of sequences, without order: list(dict.fromkeys(xs)).
unfoldable pub without : Text → List Text → List Text
without t [] = []
without t (x ∷ xs) = let rest = without t xs in if text_eq x t then rest else x ∷ rest

-- The first of equal texts stays.
unfoldable pub distinct : List Text → List Text
unfolding without
distinct [] = []
distinct (x ∷ xs) = x ∷ without x (distinct xs)

module _ {κ} (P : Text → Type κ) where
  All-insert_sorted : (t : Text) (xs : List Text) → All P (insert_sorted t xs) → P t × All P xs
  unfolding insert_sorted
  All-insert_sorted t [] h = h
  All-insert_sorted t (x ∷ xs) h = elim (Bool-cases (text_eq x t)) [
    | inl e ↦ let h' = rw e at h in (subst P ((text_eq_iff x t).0 e) h'.0, h')
    | inr e ↦ elim (Bool-cases (text_lt t x)) [
      | inl f ↦ rw (e, f) at h
      | inr f ↦
          let h' = rw (e, f) at h in
          let (pt, rest) = All-insert_sorted t xs h'.1 in (pt, (h'.0, rest))
    ]
  ]

  -- What holds of all texts of the sorted set holds of each that is in the list.
  pub All-sorted_set : (xs : List Text) → All P (sorted_set xs) → All P xs
  unfolding sorted_set
  All-sorted_set [] h = tt
  All-sorted_set (x ∷ xs) h =
      let (px, rest) = All-insert_sorted x (sorted_set xs) h in (px, All-sorted_set xs rest)

  pub All-has : (t : Text) (xs : List Text) → All P xs → has t xs ≡ true → P t
  unfolding has
  All-has t [] h e = absurd (cc)
  All-has t (x ∷ xs) h e = elim (Bool-cases (text_eq x t)) [
    | inl f ↦ subst P ((text_eq_iff x t).0 f) h.0
    | inr f ↦ All-has t xs h.1 (rw f at e)
  ]

pub has-append : (t : Text) (xs ys : List Text) → has t (xs ++ ys) ≡ (has t xs || has t ys)
unfolding has
has-append t [] ys = refl
has-append t (x ∷ xs) ys = ground (arith, has-append t xs ys)
