-- ===== src/Text/Chars.antt =====
-- Characters by code point, texts, their equality and `str.lower`.
use Prim.Native.Char.{code}
use switch_ops.Prelude.{
  ℕ, ◌+◌, ◌≡◌, refl, ◌↔◌, Bool, true, false, ◌&&◌, ◌||◌, not, List, [], ◌∷◌, map, String, arith,
  leb, ◌==◌, if◌then◌else◌,
}

abbrev pub Text : Type 0
Text = List ℕ

abbrev pub codes : String → Text
codes String.[] = []
codes (String.◌∷◌ c s) = code c ∷ codes s

-- `\d` of a regular expression, and what `int` accepts.
unfoldable pub is_decimal : ℕ → Bool
is_decimal c = leb b'0' c && leb c b'9'

-- `str.isdigit` takes the superscripts 1, 2 and 3 too.
unfoldable pub is_digit : ℕ → Bool
unfolding is_decimal
is_digit c = is_decimal c || c == 0xb2 || c == 0xb3 || c == 0xb9

-- What `str.strip` removes.
unfoldable pub is_space : ℕ → Bool
is_space c = (leb 9 c && leb c 13) || (leb 28 c && leb c 32) || c == 0x85 || c == 0xa0

unfoldable pub to_lower : ℕ → ℕ
to_lower c =
    if (leb b'A' c && leb c b'Z') || (leb 0xc0 c && leb c 0xde && not (c == 0xd7))
    then c + 32
    else c

unfoldable pub lower : Text → Text
unfolding to_lower
lower = map to_lower

abbrev pub text_eq : Text → Text → Bool
text_eq [] [] = true
text_eq [] (_ ∷ _) = false
text_eq (_ ∷ _) [] = false
text_eq (a ∷ s) (b ∷ t) = a == b && text_eq s t

pub text_eq_iff : (s t : Text) → (text_eq s t ≡ true) ↔ (s ≡ t)
text_eq_iff [] [] = (λ _. refl, λ _. refl)
text_eq_iff [] (b ∷ t) = (λ h. cc, λ h. cc)
text_eq_iff (a ∷ s) [] = (λ h. cc, λ h. cc)
text_eq_iff (a ∷ s) (b ∷ t) =
    (λ h. ground (arith, (text_eq_iff s t).0), λ h. ground (arith, (text_eq_iff s t).1))

pub text_eq_refl : (s : Text) → text_eq s s ≡ true
text_eq_refl s = (text_eq_iff s s).1 refl
