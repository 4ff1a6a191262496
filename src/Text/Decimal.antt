-- ===== src/Text/Decimal.antt =====
-- `int` of a text of decimal digits, `str` of a number, and their round trip.
use switch_ops.Prelude.{
  ℕ, zero, suc, ◌+◌, ◌-◌, ◌*◌, ◌/◌, ◌%◌, ◌<◌, ◌≡◌, refl, ap, ◌∙◌, true, [], ◌∷◌, arith, ltb,
  if◌then◌else◌, All, Bool-cases, inl, inr,
}
use switch_ops.Text.Chars.{Text, is_decimal}

int_from : ℕ → Text → ℕ
int_from n [] = n
int_from n (c ∷ s) = int_from (n * 10 + (c - b'0')) s

unfoldable pub int : Text → ℕ
unfolding int_from
int s = int_from 0 s

-- The digits of `n` before those of `acc`.
str_onto : ℕ → ℕ → Text → Text
str_onto zero n acc = acc
str_onto (suc fuel) n acc =
    let longer = (b'0' + n % 10) ∷ acc in
    let rest = str_onto fuel (n / 10) longer in if ltb n 10 then longer else rest

-- One more round than the number is enough: `int-str` fails with less.
unfoldable pub str : ℕ → Text
unfolding str_onto
str n = str_onto (suc n) n []

pub IsNumber : Text → Type 0
IsNumber s = All (λ c. is_decimal c ≡ true) s

digit_value : (n : ℕ) → n / 10 * 10 + (48 + n % 10 - 48) ≡ n
digit_value n = omega arith

int-str_onto :
    (fuel n : ℕ) (acc : Text) → n < fuel → int_from 0 (str_onto fuel n acc) ≡ int_from n acc
unfolding str_onto int_from
int-str_onto zero n acc h = elim h [ ]
int-str_onto (suc fuel) n acc h = elim (Bool-cases (ltb n 10)) [
  | inl small ↦ rw small (ap (λ k. int_from k acc) (ground arith))
  | inr large ↦ rw large (
      int-str_onto fuel (n / 10) ((48 + n % 10) ∷ acc) (ground arith)
      ∙ ap (λ k. int_from k acc) (digit_value n))
]

-- `int(str(n))` is `n`.
pub int-str : (n : ℕ) → int (str n) ≡ n
unfolding int str
int-str n = int-str_onto (suc n) n [] (omega arith)

digit-decimal : (n : ℕ) → is_decimal (48 + n % 10) ≡ true
unfolding is_decimal
digit-decimal n = ground arith

All-str_onto : (fuel n : ℕ) (acc : Text) → IsNumber acc → IsNumber (str_onto fuel n acc)
unfolding str_onto IsNumber
All-str_onto zero n acc h = h
All-str_onto (suc fuel) n acc h = elim (Bool-cases (ltb n 10)) [
  | inl small ↦ rw small (digit-decimal n, h)
  | inr large ↦ rw large (All-str_onto fuel (n / 10) ((48 + n % 10) ∷ acc) (digit-decimal n, h))
]

pub All-str : (n : ℕ) → All (λ c. is_decimal c ≡ true) (str n)
unfolding str IsNumber
All-str n = All-str_onto (suc n) n [] tt

str_onto-cons :
    (fuel n c : ℕ) (acc : Text) → (d : ℕ) × (s : Text) × (str_onto fuel n (c ∷ acc) ≡ d ∷ s)
unfolding str_onto
str_onto-cons zero n c acc = (c, acc, refl)
str_onto-cons (suc fuel) n c acc = elim (Bool-cases (ltb n 10)) [
  | inl small ↦ (48 + n % 10, c ∷ acc, rw small)
  | inr large ↦ rw large (str_onto-cons fuel (n / 10) (48 + n % 10) (c ∷ acc))
]

-- `str` of a number is not empty.
pub str-cons : (n : ℕ) → (d : ℕ) × (s : Text) × (str n ≡ d ∷ s)
unfolding str str_onto
str-cons n = elim (Bool-cases (ltb n 10)) [
  | inl small ↦ (48 + n % 10, [], rw small)
  | inr large ↦ rw large (str_onto-cons n (n / 10) (48 + n % 10) [])
]
