-- ===== src/Registry/Names.antt =====
-- Interface names: `normalize_interface` and what is built on it.
pub mod Canonical
pub mod Fixed
pub mod Short
pub mod Writable
use switch_ops.Prelude.{
  ℕ, ◌+◌, ◌≡◌, refl, Bool, false, ◌&&◌, ◌||◌, not, Option, none, some, List, [], ◌∷◌, ◌++◌, map,
  ltb, leb, ◌==◌, if◌then◌else◌, length, drop, all, any, Result, ok, err, command_not_allowed,
  value_error, empty_name, control_characters, invalid_vlan, unsupported_interface,
  malformed_suffix, not_physical, ◌>>=◌,
}
use switch_ops.Text.{
  Text, codes, is_digit, is_decimal, is_space, lower, strip, int, str, starts_with, replace_first,
  split, join,
}

-- `_PHYSICAL_PREFIXES`, in the order of the dict.
unfoldable pub physical_prefixes : List (Text × Text)
physical_prefixes =
    (codes "fa", codes "FastEthernet")
    ∷ (codes "fastethernet", codes "FastEthernet")
    ∷ (codes "gi", codes "GigabitEthernet")
    ∷ (codes "gigabitethernet", codes "GigabitEthernet")
    ∷ (codes "te", codes "TenGigabitEthernet")
    ∷ (codes "tengigabitethernet", codes "TenGigabitEthernet")
    ∷ (codes "tw", codes "TwentyFiveGigE")
    ∷ (codes "twe", codes "TwentyFiveGigE")
    ∷ (codes "twentyfivegige", codes "TwentyFiveGigE")
    ∷ (codes "fo", codes "FortyGigabitEthernet")
    ∷ (codes "fortygigabitethernet", codes "FortyGigabitEthernet")
    ∷ (codes "hu", codes "HundredGigE")
    ∷ (codes "hundredgige", codes "HundredGigE")
    ∷ []

-- `_SHORT_PREFIXES`
unfoldable pub short_prefixes : List (Text × Text)
short_prefixes =
    (codes "FastEthernet", codes "Fa")
    ∷ (codes "GigabitEthernet", codes "Gi")
    ∷ (codes "TenGigabitEthernet", codes "Te")
    ∷ (codes "TwentyFiveGigE", codes "Twe")
    ∷ (codes "FortyGigabitEthernet", codes "Fo")
    ∷ (codes "HundredGigE", codes "Hu")
    ∷ []

insert_by_length : Text × Text → List (Text × Text) → List (Text × Text)
insert_by_length e [] = e ∷ []
insert_by_length (p, l) ((q, m) ∷ rest) =
    if leb (length q) (length p)
    then (p, l) ∷ (q, m) ∷ rest
    else (q, m) ∷ insert_by_length (p, l) rest

-- `sorted(..., key=len, reverse=True)`: the longest first, equal lengths in their order.
sort_by_length : List (Text × Text) → List (Text × Text)
unfolding insert_by_length
sort_by_length [] = []
sort_by_length (e ∷ rest) = insert_by_length e (sort_by_length rest)

-- The entry of the first prefix that the text starts with.
first_prefix : Text → List (Text × Text) → Option (Text × Text)
first_prefix s [] = none
first_prefix s ((p, long) ∷ rest) = if starts_with p s then some (p, long) else first_prefix s rest

find_prefix : Text → Option (Text × Text)
unfolding first_prefix sort_by_length physical_prefixes
find_prefix s = first_prefix s (sort_by_length physical_prefixes)

unfoldable pub is_control : ℕ → Bool
is_control c = ltb c 32 || c == 127

-- A text that is not empty and has only characters of the class.
nonempty_all : (ℕ → Bool) → Text → Bool
nonempty_all p [] = false
nonempty_all p (c ∷ s) = all p (c ∷ s)

-- `int(suffix)` where `suffix.isdigit()`: a superscript is a ValueError.
int_of_digits : Text → Result ℕ
unfolding int nonempty_all is_decimal
int_of_digits s = if nonempty_all is_decimal s then ok (int s) else err value_error

normalize_vlan : Text → Result Text
unfolding nonempty_all is_digit int_of_digits
normalize_vlan suffix =
    if nonempty_all is_digit suffix
    then (do n ← int_of_digits suffix; ok (codes "Vlan" ++ str n))
    else err (command_not_allowed invalid_vlan)

-- The regular expression `\d+(?:/\d+){1,2}`, matched against the whole suffix, by its parts.
matches_suffix : List Text → Bool
unfolding nonempty_all is_decimal
matches_suffix parts =
    (length parts == 2 || length parts == 3) && all (nonempty_all is_decimal) parts

renumber : Text → Text
unfolding int str
renumber part = str (int part)

unfoldable pub normalize_suffix : Text → Text → Result Text
unfolding matches_suffix renumber split join
normalize_suffix long suffix =
    let parts = split b'/' suffix in
    if matches_suffix parts
    then ok (long ++ join b'/' (map renumber parts))
    else err (command_not_allowed malformed_suffix)

normalize_physical : Text → Option (Text × Text) → Result Text
unfolding normalize_suffix
normalize_physical stripped none = err (command_not_allowed unsupported_interface)
normalize_physical stripped (some (prefix, long)) =
    normalize_suffix long (drop (length prefix) stripped)

unfoldable pub normalize_stripped : Text → Result Text
unfolding normalize_vlan normalize_physical find_prefix lower
normalize_stripped stripped =
    let low = lower stripped in
    if starts_with (codes "vlan") low
    then normalize_vlan (drop 4 low)
    else normalize_physical stripped (find_prefix low)

unfoldable pub normalize_interface : Text → Result Text
unfolding is_control normalize_stripped strip is_space
normalize_interface [] = err (command_not_allowed empty_name)
normalize_interface (c ∷ s) =
    if any is_control (c ∷ s)
    then err (command_not_allowed control_characters)
    else normalize_stripped (strip (c ∷ s))

unfoldable pub is_physical_interface : Text → Result Bool
unfolding normalize_interface
is_physical_interface name = elim (normalize_interface name) [
  | ok canonical ↦ ok (not (starts_with (codes "Vlan") canonical))
  | err (command_not_allowed _) ↦ ok false
  | err e ↦ err e
]

unfoldable pub shorten : Text → List (Text × Text) → Text
unfolding replace_first
shorten canonical [] = canonical
shorten canonical ((long, short) ∷ rest) =
    if starts_with long canonical
    then replace_first long short canonical
    else shorten canonical rest

unfoldable pub short_interface : Text → Result Text
unfolding normalize_interface shorten short_prefixes
short_interface name = do
  canonical ← normalize_interface name
  ok (shorten canonical short_prefixes)

unfoldable pub assert_interface_writable : Text → Result Text
unfolding normalize_interface is_physical_interface
assert_interface_writable name = do
  canonical ← normalize_interface name
  physical ← is_physical_interface canonical
  if physical then ok canonical else err (command_not_allowed not_physical)

unfoldable pub assert_interface_readable : Text → Result Text
unfolding normalize_interface
assert_interface_readable name = normalize_interface name

normalize_gi : normalize_interface (codes " gi0/06 ") ≡ ok (codes "GigabitEthernet0/6")
unfolding normalize_interface
normalize_gi = refl

normalize_twe : normalize_interface (codes "TWE1/1/10") ≡ ok (codes "TwentyFiveGigE1/1/10")
unfolding normalize_interface
normalize_twe = refl

normalize_vlan_007 : normalize_interface (codes "VLAN007") ≡ ok (codes "Vlan7")
unfolding normalize_interface
normalize_vlan_007 = refl

short_te : short_interface (codes "tengigabitethernet1/1/1") ≡ ok (codes "Te1/1/1")
unfolding short_interface
short_te = refl

normalize_bad :
    normalize_interface (codes "Gi0/1\nshutdown") ≡ err (command_not_allowed control_characters)
unfolding normalize_interface
normalize_bad = refl

normalize_flat : normalize_interface (codes "Gi1") ≡ err (command_not_allowed malformed_suffix)
unfolding normalize_interface
normalize_flat = refl
