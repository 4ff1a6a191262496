-- ===== src/Text/Lines.antt =====
-- `splitlines`, `split()`, `find`, slices, and the whitespace of regular expressions.
use switch_ops.Prelude.{
  ℕ, ◌+◌, ◌≡◌, refl, Bool, true, false, ◌&&◌, ◌||◌, not, Option, none, some, List, [], ◌∷◌, leb,
  ◌==◌, if◌then◌else◌, take, drop,
}
use switch_ops.Text.Chars.{Text, codes, is_space}
use switch_ops.Text.Parts.{starts_with}

unfoldable pub is_line_break : ℕ → Bool
is_line_break c = (leb 10 c && leb c 13) || (leb 28 c && leb c 30) || c == 0x85

prepend : ℕ → List Text → List Text
prepend c [] = (c ∷ []) ∷ []
prepend c (l ∷ ls) = (c ∷ l) ∷ ls

-- `cr` says that a carriage return stands before: with it a line feed is one break.
lines_from : Bool → Text → List Text
unfolding is_line_break prepend
lines_from cr [] = []
lines_from cr (c ∷ s) =
    let rest = lines_from (c == 13) s in
    if cr && c == 10 then rest else if is_line_break c then [] ∷ rest else prepend c rest

-- s.splitlines(): no line stands behind the last break.
unfoldable pub splitlines : Text → List Text
unfolding lines_from
splitlines s = lines_from false s

-- The first word of a text and what is left behind it.
next_word : Text → Text × Text
unfolding is_space
next_word [] = ([], [])
next_word (c ∷ s) =
    let (word, rest) = next_word s in if is_space c then ([], c ∷ s) else (c ∷ word, rest)

-- s.split(): a word begins where a space, or the start of the text, stands before a character.
words_from : Bool → Text → List Text
unfolding next_word
words_from before [] = []
words_from before (c ∷ s) =
    let rest = words_from (is_space c) s in
    if before && not (is_space c) then (next_word (c ∷ s)).0 ∷ rest else rest

unfoldable pub words : Text → List Text
unfolding words_from
words s = words_from true s

-- s.find(p), with `none` for -1.
unfoldable pub find : Text → Text → Option ℕ
find p [] = if starts_with p [] then some 0 else none
find p (c ∷ s) =
    let rest = find p s in
    if starts_with p (c ∷ s) then some 0 else elim rest [ none ↦ none | some i ↦ some (i + 1) ]

drop_last : Text → Text
drop_last [] = []
drop_last (c ∷ []) = []
drop_last (c ∷ d ∷ s) = c ∷ drop_last (d ∷ s)

-- s[start:end], where an end of -1 leaves out the last character.
unfoldable pub slice : ℕ → Option ℕ → Text → Text
unfolding drop_last
slice start (some end) s = drop start (take end s)
slice start none s = drop start (drop_last s)

split_lines : splitlines (codes "a\r\nb\n\nc") ≡ codes "a" ∷ codes "b" ∷ [] ∷ codes "c" ∷ []
unfolding splitlines
split_lines = refl

split_words : words (codes "  Gi0/1   my port ") ≡ codes "Gi0/1" ∷ codes "my" ∷ codes "port" ∷ []
unfolding words is_space
split_words = refl
