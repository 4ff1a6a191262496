-- ===== src/Prelude/Lists.antt =====
-- Lists measured by native numbers, under the library's names, and a predicate on all elements.
use Prim.Native.Nat.{ℕ, zero, suc, ◌+◌}
use mathlib.Core.Path.{◌≡◌, refl}
use mathlib.Core.Bool.{Bool, true, false, ◌&&◌, ◌||◌}
use mathlib.Core.List.{List, [], ◌∷◌, ◌++◌, map}
use native.Mathlib.Omega.{arith}
use switch_ops.Prelude.Tests.{&&-true}

module _ {ℓ} {A : Type ℓ} where
  abbrev pub length : List A → ℕ
  length [] = 0
  length (x ∷ xs) = suc (length xs)

  abbrev pub take : ℕ → List A → List A
  take zero xs = []
  take (suc n) [] = []
  take (suc n) (x ∷ xs) = x ∷ take n xs

  abbrev pub drop : ℕ → List A → List A
  drop zero xs = xs
  drop (suc n) [] = []
  drop (suc n) (x ∷ xs) = drop n xs

  -- Python's `all` and `any` over a test.
  abbrev pub all : (A → Bool) → List A → Bool
  all p [] = true
  all p (x ∷ xs) = p x && all p xs

  abbrev pub any : (A → Bool) → List A → Bool
  any p [] = false
  any p (x ∷ xs) = p x || any p xs

  pub length-append : (xs ys : List A) → length (xs ++ ys) ≡ length xs + length ys
  length-append [] ys = omega arith
  length-append (x ∷ xs) ys = omega (arith, length-append xs ys)

abbrev pub All {ℓ κ} : {A : Type ℓ} → (A → Type κ) → List A → Type κ
All P [] = Unit
All P (x ∷ xs) = P x × All P xs

pub All-append {ℓ κ} :
    {A : Type ℓ} (P : A → Type κ) (xs ys : List A) → All P xs → All P ys → All P (xs ++ ys)
All-append P [] ys hx hy = hy
All-append P (x ∷ xs) ys hx hy = (hx.0, All-append P xs ys hx.1 hy)

pub All-drop {ℓ κ} :
    {A : Type ℓ} (P : A → Type κ) (n : ℕ) (xs : List A) → All P xs → All P (drop n xs)
All-drop P zero xs h = h
All-drop P (suc n) [] h = h
All-drop P (suc n) (x ∷ xs) h = All-drop P n xs h.1

pub All-mono {ℓ κ μ} :
    {A : Type ℓ} (P : A → Type κ) (Q : A → Type μ)
    → ((x : A) → P x → Q x)
    → (xs : List A) → All P xs
    → All Q xs
All-mono P Q f [] h = tt
All-mono P Q f (x ∷ xs) h = (f x h.0, All-mono P Q f xs h.1)

-- The Boolean `all` gives the predicate, and the other way round.
pub All-of_all {ℓ} :
    {A : Type ℓ} (p : A → Bool) (xs : List A) → all p xs ≡ true → All (λ x. p x ≡ true) xs
All-of_all p [] h = tt
All-of_all p (x ∷ xs) h = let (a, b) = &&-true (p x) (all p xs) h in (a, All-of_all p xs b)

pub all_of_All {ℓ} :
    {A : Type ℓ} (p : A → Bool) (xs : List A) → All (λ x. p x ≡ true) xs → all p xs ≡ true
all_of_All p [] h = refl
all_of_All p (x ∷ xs) h = ground (arith, all_of_All p xs h.1)

pub All-parts {ℓ κ} :
    {A : Type ℓ} (P : A → Type κ) (front back : List A)
    → All P (front ++ back)
    → All P front × All P back
All-parts P [] back whole = (tt, whole)
All-parts P (a ∷ front) back (here, later) =
    let (first, second) = All-parts P front back later in ((here, first), second)

pub All-map {ℓ κ μ} :
    {A : Type ℓ} {B : Type κ} (P : B → Type μ) (f : A → B) (xs : List A)
    → All P (map f xs)
    → All (λ a. P (f a)) xs
All-map P f [] h = tt
All-map P f (x ∷ xs) h = (h.0, All-map P f xs h.1)
