-- ===== src/Text/Parts.antt =====
-- `startswith`, `in`, `replace`, `split` and `join`.
use switch_ops.Prelude.{
  ℕ, zero, suc, ◌-◌, ◌≡◌, refl, ap, Bool, true, false, ◌&&◌, ◌||◌, List, [], ◌∷◌, ◌++◌, arith,
  if◌then◌else◌, ◌==◌, All, All-append, Bool-cases, inl, inr, length, drop, ◌∙◌,
}
use switch_ops.Text.Chars.{Text}

-- s.startswith(p), the prefix first.
abbrev pub starts_with : Text → Text → Bool
starts_with [] s = true
starts_with (a ∷ p) [] = false
starts_with (a ∷ p) (b ∷ s) = a == b && starts_with p s

-- p in s
unfoldable pub contains : Text → Text → Bool
contains p [] = starts_with p []
contains p (c ∷ s) = starts_with p (c ∷ s) || contains p s

-- s.replace(old, new) for an `old` that is not empty; `skip` characters are left of an occurrence.
replace_from : Text → Text → ℕ → Text → Text
replace_from old new skip [] = []
replace_from old new (suc skip) (c ∷ s) = replace_from old new skip s
replace_from old new zero (c ∷ s) =
    let found = starts_with old (c ∷ s) in
    let rest = replace_from old new (if found then length old - 1 else 0) s in
    if found then new ++ rest else c ∷ rest

unfoldable pub replace : Text → Text → Text → Text
unfolding replace_from
replace old new s = replace_from old new 0 s

All-replace_from :
    (P : ℕ → Type 0) (old new : Text) (skip : ℕ) (s : Text)
    → All P new
    → All P s
    → All P (replace_from old new skip s)
unfolding replace_from
All-replace_from P old new skip [] hn hs = tt
All-replace_from P old new (suc skip) (c ∷ s) hn hs = All-replace_from P old new skip s hn hs.1
All-replace_from P old new zero (c ∷ s) hn hs = elim (Bool-cases (starts_with old (c ∷ s))) [
  | inl found ↦
      rw found (All-append P new _ hn (All-replace_from P old new (length old - 1) s hn hs.1))
  | inr none_here ↦ rw none_here (hs.0, All-replace_from P old new 0 s hn hs.1)
]

-- What holds of the characters of a text and of a replacement holds after it.
pub All-replace :
    (P : ℕ → Type 0) (old new s : Text) → All P new → All P s → All P (replace old new s)
unfolding replace
All-replace P old new s hn hs = All-replace_from P old new 0 s hn hs

-- s.replace(old, new, 1)
unfoldable pub replace_first : Text → Text → Text → Text
replace_first old new [] = []
replace_first old new (c ∷ s) =
    let rest = replace_first old new s in
    if starts_with old (c ∷ s) then new ++ drop (length old) (c ∷ s) else c ∷ rest

put_front : ℕ → List Text → List Text
put_front c [] = (c ∷ []) ∷ []
put_front c (p ∷ ps) = (c ∷ p) ∷ ps

-- s.split(sep) at a single character, and sep.join(parts).
unfoldable pub split : ℕ → Text → List Text
unfolding put_front
split sep [] = [] ∷ []
split sep (c ∷ s) = let rest = split sep s in if c == sep then [] ∷ rest else put_front c rest

unfoldable pub join : ℕ → List Text → Text
join sep [] = []
join sep (p ∷ []) = p
join sep (p ∷ q ∷ ps) = p ++ sep ∷ join sep (q ∷ ps)

abbrev pub Lacks : ℕ → Text → Type 0
Lacks sep = All (λ c. (c == sep) ≡ false)

split_lacking : (sep : ℕ) (p : Text) → Lacks sep p → split sep p ≡ p ∷ []
unfolding split
split_lacking sep [] h = refl
split_lacking sep (c ∷ p) h = rw (h.0, split_lacking sep p h.1)

split-append : (sep : ℕ) (p s : Text) → Lacks sep p → split sep (p ++ sep ∷ s) ≡ p ∷ split sep s
unfolding split
split-append sep [] s h = ground arith
split-append sep (c ∷ p) s h = rw (h.0, split-append sep p s h.1)

-- Splitting undoes a join of parts that lack the separator.
pub split-join :
    (sep : ℕ) (p : Text) (ps : List Text)
    → Lacks sep p
    → All (Lacks sep) ps
    → split sep (join sep (p ∷ ps)) ≡ p ∷ ps
unfolding join
split-join sep p [] h hs = split_lacking sep p h
split-join sep p (q ∷ ps) h hs =
    split-append sep p (join sep (q ∷ ps)) h ∙ ap (λ l. p ∷ l) (split-join sep q ps hs.0 hs.1)
