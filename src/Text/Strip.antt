-- ===== src/Text/Strip.antt =====
-- `str.strip` and the texts that it leaves alone.
use switch_ops.Prelude.{
  ℕ, ◌≡◌, refl, Bool, true, false, ◌&&◌, [], ◌∷◌, arith, if◌then◌else◌, All, Bool-cases, inl, inr,
}
use switch_ops.Text.Chars.{Text, is_space}

unfoldable pub lstrip : Text → Text
lstrip [] = []
lstrip (c ∷ s) = if is_space c then lstrip s else c ∷ s

is_empty : Text → Bool
is_empty [] = true
is_empty (_ ∷ _) = false

unfoldable pub rstrip : Text → Text
unfolding is_empty
rstrip [] = []
rstrip (c ∷ s) = let rest = rstrip s in if is_space c && is_empty rest then [] else c ∷ rest

unfoldable pub strip : Text → Text
unfolding lstrip rstrip
strip s = rstrip (lstrip s)

abbrev pub HasNoSpace : Text → Type 0
HasNoSpace = All (λ c. is_space c ≡ false)

lstrip-HasNoSpace : (s : Text) → HasNoSpace s → lstrip s ≡ s
unfolding lstrip
lstrip-HasNoSpace [] h = refl
lstrip-HasNoSpace (c ∷ s) h = rw h.0

rstrip-HasNoSpace : (s : Text) → HasNoSpace s → rstrip s ≡ s
unfolding rstrip
rstrip-HasNoSpace [] h = refl
rstrip-HasNoSpace (c ∷ s) h = ground (arith, h.0, rstrip-HasNoSpace s h.1)

pub strip-HasNoSpace : (s : Text) → HasNoSpace s → strip s ≡ s
unfolding strip
strip-HasNoSpace s h = rw (lstrip-HasNoSpace s h) (rstrip-HasNoSpace s h)

-- What holds of every character still does after a strip.
All-lstrip : (P : ℕ → Type 0) (s : Text) → All P s → All P (lstrip s)
unfolding lstrip
All-lstrip P [] h = tt
All-lstrip P (c ∷ s) h = elim (Bool-cases (is_space c)) [
  | inl e ↦ rw e (All-lstrip P s h.1)
  | inr e ↦ rw e h
]

All-rstrip : (P : ℕ → Type 0) (s : Text) → All P s → All P (rstrip s)
unfolding rstrip
All-rstrip P [] h = tt
All-rstrip P (c ∷ s) h = elim (Bool-cases (is_space c && is_empty (rstrip s))) [
  | inl e ↦ rw e tt
  | inr e ↦ rw e (h.0, All-rstrip P s h.1)
]

pub All-strip : (P : ℕ → Type 0) (s : Text) → All P s → All P (strip s)
unfolding strip
All-strip P s h = All-rstrip P (lstrip s) (All-lstrip P s h)

rstrip_idem : (s : Text) → rstrip (rstrip s) ≡ rstrip s
unfolding rstrip
rstrip_idem [] = refl
rstrip_idem (c ∷ s) = ground (arith, rstrip_idem s)

lstrip-rstrip-lstrip : (s : Text) → lstrip (rstrip (lstrip s)) ≡ rstrip (lstrip s)
unfolding lstrip rstrip
lstrip-rstrip-lstrip [] = refl
lstrip-rstrip-lstrip (c ∷ s) = ground (arith, lstrip-rstrip-lstrip s)

pub strip_idem : (s : Text) → strip (strip s) ≡ strip s
unfolding strip
strip_idem s = rw lstrip-rstrip-lstrip (rstrip_idem (lstrip s))
