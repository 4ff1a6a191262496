-- ===== src/Registry/Names/Canonical.antt =====
-- The canonical names are what `normalize_interface` returns, and it leaves them alone.
use switch_ops.Prelude.{
  ℕ, ◌≡◌, refl, true, inl, inr, Option, none, some, List, [], ◌∷◌, ◌++◌, map, arith, length, drop,
  All, Bool-cases, ok,
}
use switch_ops.Text.{Text, codes, lower, strip, int, str, starts_with, split, join}
use switch_ops.Registry.Names.{
  physical_prefixes, sort_by_length, first_prefix, find_prefix, int_of_digits, normalize_vlan,
  matches_suffix, renumber, normalize_suffix, normalize_physical, normalize_stripped,
  normalize_interface,
}

-- The six kinds of physical interface.
pub data Medium : Type 0 where
  fast gigabit ten_gigabit twenty_five_gigabit forty_gigabit hundred_gigabit : Medium

abbrev pub long_name : Medium → Text
long_name fast = codes "FastEthernet"
long_name gigabit = codes "GigabitEthernet"
long_name ten_gigabit = codes "TenGigabitEthernet"
long_name twenty_five_gigabit = codes "TwentyFiveGigE"
long_name forty_gigabit = codes "FortyGigabitEthernet"
long_name hundred_gigabit = codes "HundredGigE"

-- Slot, module and port: two numbers or three.
abbrev pub numbered : ℕ → ℕ → List ℕ → Text
numbered a b rest = join b'/' (map str (a ∷ b ∷ rest))

pub data IsCanonical (c : Text) : Type 0 where
  vlan : (n : ℕ) → c ≡ codes "Vlan" ++ str n → IsCanonical c
  two : (m : Medium) (a b : ℕ) → c ≡ long_name m ++ numbered a b [] → IsCanonical c
  three : (m : Medium) (a b d : ℕ) → c ≡ long_name m ++ numbered a b (d ∷ []) → IsCanonical c

-- Every entry of the table leads to one of the six names.
abbrev NamesMedium : Option (Text × Text) → Type 0
NamesMedium none = Unit
NamesMedium (some (p, long)) = (m : Medium) × (long ≡ long_name m)

first_prefix-NamesMedium :
    (s : Text) (l : List (Text × Text))
    → All (λ e. NamesMedium (some e)) l
    → NamesMedium (first_prefix s l)
unfolding first_prefix
first_prefix-NamesMedium s [] h = tt
first_prefix-NamesMedium s ((p, long) ∷ rest) h = elim (Bool-cases (starts_with p s)) [
  | inl found ↦ rw found h.0
  | inr other ↦ rw other (first_prefix-NamesMedium s rest h.1)
]

table-NamesMedium : All (λ e. NamesMedium (some e)) (sort_by_length physical_prefixes)
unfolding sort_by_length physical_prefixes
table-NamesMedium = (
  (forty_gigabit, refl),
  (
    (ten_gigabit, refl),
    (
      (gigabit, refl),
      (
        (twenty_five_gigabit, refl),
        (
          (fast, refl),
          (
            (hundred_gigabit, refl),
            (
              (twenty_five_gigabit, refl),
              (
                (fast, refl),
                (
                  (gigabit, refl),
                  (
                    (ten_gigabit, refl),
                    (
                      (twenty_five_gigabit, refl),
                      ((forty_gigabit, refl), ((hundred_gigabit, refl), tt)),
                    ),
                  ),
                ),
              ),
            ),
          ),
        ),
      ),
    ),
  ),
)

find_prefix-NamesMedium : (s : Text) → NamesMedium (find_prefix s)
unfolding find_prefix
find_prefix-NamesMedium s =
    first_prefix-NamesMedium s (sort_by_length physical_prefixes) table-NamesMedium

-- The parts of an accepted suffix are two or three.
suffix-IsCanonical :
    (m : Medium) (parts : List Text) (c : Text)
    → matches_suffix parts ≡ true
    → c ≡ long_name m ++ join b'/' (map renumber parts)
    → IsCanonical c
unfolding matches_suffix renumber
suffix-IsCanonical m [] c h e = absurd (ground arith)
suffix-IsCanonical m (p ∷ []) c h e = absurd (ground arith)
suffix-IsCanonical m (p ∷ q ∷ []) c h e = two m (int p) (int q) e
suffix-IsCanonical m (p ∷ q ∷ r ∷ []) c h e = three m (int p) (int q) (int r) e
suffix-IsCanonical m (p ∷ q ∷ r ∷ s ∷ l) c h e = absurd (ground arith)

normalize_suffix-IsCanonical :
    (m : Medium) (suffix c : Text) → normalize_suffix (long_name m) suffix ≡ ok c → IsCanonical c
unfolding normalize_suffix
normalize_suffix-IsCanonical m suffix c h = elim (Bool-cases (matches_suffix (split b'/' suffix))) [
  | inl good ↦ suffix-IsCanonical m (split b'/' suffix) c good (ground arith)
  | inr bad ↦ absurd (ground arith)
]

normalize_physical-IsCanonical :
    (s c : Text) (o : Option (Text × Text))
    → NamesMedium o
    → normalize_physical s o ≡ ok c
    → IsCanonical c
unfolding normalize_physical
normalize_physical-IsCanonical s c none n h = absurd (cc)
normalize_physical-IsCanonical s c (some (p, long)) n h =
    normalize_suffix-IsCanonical n.0 (drop (length p) s) c (rw (n.1) at h)

normalize_vlan-IsCanonical : (s c : Text) → normalize_vlan s ≡ ok c → IsCanonical c
unfolding normalize_vlan int_of_digits
normalize_vlan-IsCanonical s c h = vlan (int s) (ground arith)

normalize_stripped-IsCanonical : (s c : Text) → normalize_stripped s ≡ ok c → IsCanonical c
unfolding normalize_stripped
normalize_stripped-IsCanonical s c h = elim (Bool-cases (starts_with (codes "vlan") (lower s))) [
  | inl v ↦ normalize_vlan-IsCanonical (drop 4 (lower s)) c (ground arith)
  | inr p ↦
      normalize_physical-IsCanonical s c (find_prefix (lower s)) (find_prefix-NamesMedium (lower s))
        (ground arith)
]

-- Whatever text is accepted, the result is canonical: Vlan and a number, or one of the six long media
-- names and two or three numbers joined by slashes, all in plain decimal.
pub normalize_interface-IsCanonical :
    (name : Text) {c : Text} → normalize_interface name ≡ ok c → IsCanonical c
unfolding normalize_interface
normalize_interface-IsCanonical [] h = absurd (cc)
normalize_interface-IsCanonical (a ∷ s) {c} h =
    normalize_stripped-IsCanonical (strip (a ∷ s)) c (ground arith)
