-- ===== src/Registry/Names/Fixed.antt =====
-- `normalize_interface` leaves canonical names alone, and undoes `short_interface`.
use switch_ops.Prelude.{
  ℕ, ◌≡◌, refl, sym, ap, subst, ◌∙◌, true, false, some, List, [], ◌∷◌, ◌++◌, map, arith, length,
  drop, all, any, All, All-append, All-mono, all_of_All, ok,
}
use switch_ops.Text.{
  Text, codes, is_digit, is_decimal, is_space, to_lower, lower, str, starts_with, join, HasNoSpace,
  strip-HasNoSpace, int-str, All-str, str-cons, Lacks, split-join,
}
use switch_ops.Registry.Names.{
  find_prefix, is_control, nonempty_all, int_of_digits, normalize_vlan, matches_suffix, renumber,
  normalize_suffix, normalize_physical, normalize_stripped, normalize_interface,
}
use switch_ops.Registry.Names.Canonical.{
  Medium, fast, gigabit, ten_gigabit, twenty_five_gigabit, forty_gigabit, hundred_gigabit,
  long_name, numbered, IsCanonical, vlan, two, three, normalize_interface-IsCanonical,
}

-- The characters of the numbers in a name: no capital, no space, no control character.
pub record IsPlain (c : ℕ) : Type 0 where
  pub not_space : is_space c ≡ false
  pub not_control : is_control c ≡ false
  pub low : to_lower c ≡ c

pub decimal-IsPlain : (c : ℕ) → is_decimal c ≡ true → IsPlain c
unfolding is_decimal is_space is_control to_lower
decimal-IsPlain c h = ground arith

slash-IsPlain : IsPlain b'/'
unfolding is_space is_control to_lower
slash-IsPlain = record { not_space = refl; not_control = refl; low = refl }

pub str-IsPlain : (n : ℕ) → All IsPlain (str n)
str-IsPlain n = All-mono _ IsPlain decimal-IsPlain (str n) (All-str n)

pub join-IsPlain : (ns : List ℕ) → All IsPlain (join b'/' (map str ns))
unfolding join
join-IsPlain [] = tt
join-IsPlain (n ∷ []) = str-IsPlain n
join-IsPlain (n ∷ k ∷ ns) =
    All-append IsPlain (str n) _ (str-IsPlain n) (slash-IsPlain, join-IsPlain (k ∷ ns))

pub lower-IsPlain : (s : Text) → All IsPlain s → lower s ≡ s
unfolding lower
lower-IsPlain [] h = refl
lower-IsPlain (c ∷ s) h = cc (h.0.low, lower-IsPlain s h.1)

pub HasNoSpace-IsPlain : (s : Text) → All IsPlain s → HasNoSpace s
HasNoSpace-IsPlain s h = All-mono IsPlain _ (λ c p. p.not_space) s h

pub any_control-IsPlain : (s : Text) → All IsPlain s → any is_control s ≡ false
any_control-IsPlain [] h = refl
any_control-IsPlain (c ∷ s) h = rw (h.0.not_control, any_control-IsPlain s h.1)

-- A name is not empty, and its letters are no space and no control character.
pub name-shape :
    (m : Medium) (s : Text) → any is_control s ≡ false → any is_control (long_name m ++ s) ≡ false
unfolding is_control
name-shape fast s h = h
name-shape gigabit s h = h
name-shape ten_gigabit s h = h
name-shape twenty_five_gigabit s h = h
name-shape forty_gigabit s h = h
name-shape hundred_gigabit s h = h

long_name-HasNoSpace : (m : Medium) → HasNoSpace (long_name m)
unfolding is_space
long_name-HasNoSpace fast = ground arith
long_name-HasNoSpace gigabit = ground arith
long_name-HasNoSpace ten_gigabit = ground arith
long_name-HasNoSpace twenty_five_gigabit = ground arith
long_name-HasNoSpace forty_gigabit = ground arith
long_name-HasNoSpace hundred_gigabit = ground arith

not_vlan : (m : Medium) (s : Text) → starts_with (codes "vlan") (lower (long_name m ++ s)) ≡ false
unfolding lower
not_vlan fast s = refl
not_vlan gigabit s = refl
not_vlan ten_gigabit s = refl
not_vlan twenty_five_gigabit s = refl
not_vlan forty_gigabit s = refl
not_vlan hundred_gigabit s = refl

-- The longest prefix found in a long name is the whole of it.
find_prefix-long_name :
    (m : Medium) (s : Text)
    → find_prefix (lower (long_name m ++ s)) ≡ some (lower (long_name m), long_name m)
unfolding lower find_prefix
find_prefix-long_name fast s = refl
find_prefix-long_name gigabit s = refl
find_prefix-long_name ten_gigabit s = refl
find_prefix-long_name twenty_five_gigabit s = refl
find_prefix-long_name forty_gigabit s = refl
find_prefix-long_name hundred_gigabit s = refl

drop-long_name :
    (m : Medium) (s : Text) → drop (length (lower (long_name m))) (long_name m ++ s) ≡ s
unfolding lower
drop-long_name fast s = refl
drop-long_name gigabit s = refl
drop-long_name ten_gigabit s = refl
drop-long_name twenty_five_gigabit s = refl
drop-long_name forty_gigabit s = refl
drop-long_name hundred_gigabit s = refl

str-Lacks : (n : ℕ) → Lacks b'/' (str n)
unfolding is_decimal
str-Lacks n = All-mono _ _ (λ c (h : is_decimal c ≡ true). ground arith) (str n) (All-str n)

strs-Lacks : (ns : List ℕ) → All (Lacks b'/') (map str ns)
strs-Lacks [] = tt
strs-Lacks (n ∷ ns) = (str-Lacks n, strs-Lacks ns)

nonempty_str : (n : ℕ) → nonempty_all is_decimal (str n) ≡ true
unfolding nonempty_all
nonempty_str n =
    let (d, s, e) = str-cons n in rw e (rw e at (all_of_All is_decimal (str n) (All-str n)))

all_numbers : (ns : List ℕ) → all (nonempty_all is_decimal) (map str ns) ≡ true
all_numbers [] = refl
all_numbers (n ∷ ns) = rw (nonempty_str n, all_numbers ns)

renumber-str : (ns : List ℕ) → map renumber (map str ns) ≡ map str ns
unfolding renumber
renumber-str [] = refl
renumber-str (n ∷ ns) = cc (ap str (int-str n), renumber-str ns)

pub normalize_suffix-two :
    (long : Text) (a b : ℕ) → normalize_suffix long (numbered a b []) ≡ ok (long ++ numbered a b [])
unfolding normalize_suffix matches_suffix
normalize_suffix-two long a b =
    rw (split-join b'/' (str a) (str b ∷ []) (str-Lacks a) (strs-Lacks (b ∷ []))) (
      rw (all_numbers (a ∷ b ∷ []))
        (ap (λ l. ok (long ++ join b'/' l)) (renumber-str (a ∷ b ∷ []))))

pub normalize_suffix-three :
    (long : Text) (a b d : ℕ)
    → normalize_suffix long (numbered a b (d ∷ [])) ≡ ok (long ++ numbered a b (d ∷ []))
unfolding normalize_suffix matches_suffix
normalize_suffix-three long a b d =
    rw (split-join b'/' (str a) (str b ∷ str d ∷ []) (str-Lacks a) (strs-Lacks (b ∷ d ∷ []))) (
      rw (all_numbers (a ∷ b ∷ d ∷ []))
        (ap (λ l. ok (long ++ join b'/' l)) (renumber-str (a ∷ b ∷ d ∷ []))))

normalize_stripped-long_name :
    (m : Medium) (s : Text)
    → normalize_stripped (long_name m ++ s) ≡ normalize_suffix (long_name m) s
unfolding normalize_stripped normalize_physical
normalize_stripped-long_name m s =
    rw (not_vlan m s) (rw (find_prefix-long_name m s) (rw (drop-long_name m s)))

normalize_plain :
    (c : ℕ) (s : Text)
    → any is_control (c ∷ s) ≡ false
    → HasNoSpace (c ∷ s)
    → normalize_interface (c ∷ s) ≡ normalize_stripped (c ∷ s)
unfolding normalize_interface
normalize_plain c s h n = rw h (rw (strip-HasNoSpace (c ∷ s) n))

-- A name with letters in front is no empty text.
pub normalize_spelt :
    (p s : Text) (c : ℕ) (q : Text)
    → p ≡ c ∷ q
    → any is_control (p ++ s) ≡ false
    → HasNoSpace p
    → All IsPlain s
    → normalize_interface (p ++ s) ≡ normalize_stripped (p ++ s)
normalize_spelt p s c q e h n l =
    subst
      (λ t.
        any is_control (t ++ s) ≡ false
        → HasNoSpace t
        → normalize_interface (t ++ s) ≡ normalize_stripped (t ++ s))
      (sym e)
      (λ h' n'. normalize_plain c (q ++ s) h' (All-append _ (c ∷ q) s n' (HasNoSpace-IsPlain s l)))
      h n

long_name-cons : (m : Medium) → (c : ℕ) × (q : Text) × (long_name m ≡ c ∷ q)
long_name-cons fast = (b'F', codes "astEthernet", refl)
long_name-cons gigabit = (b'G', codes "igabitEthernet", refl)
long_name-cons ten_gigabit = (b'T', codes "enGigabitEthernet", refl)
long_name-cons twenty_five_gigabit = (b'T', codes "wentyFiveGigE", refl)
long_name-cons forty_gigabit = (b'F', codes "ortyGigabitEthernet", refl)
long_name-cons hundred_gigabit = (b'H', codes "undredGigE", refl)

normalize-long_name :
    (m : Medium) (s : Text)
    → All IsPlain s
    → normalize_interface (long_name m ++ s) ≡ normalize_suffix (long_name m) s
normalize-long_name m s l =
    let (c, q, e) = long_name-cons m in
    normalize_spelt (long_name m) s c q e (name-shape m s (any_control-IsPlain s l))
      (long_name-HasNoSpace m) l
    ∙ normalize_stripped-long_name m s

normalize_vlan-str : (n : ℕ) → normalize_vlan (str n) ≡ ok (codes "Vlan" ++ str n)
unfolding normalize_vlan int_of_digits
normalize_vlan-str n = rw (nonempty_digits n) (rw (nonempty_str n) (rw (int-str n)))
  where
    digit_of_decimal : (c : ℕ) → is_decimal c ≡ true → is_digit c ≡ true
    digit_of_decimal c h = unfold is_digit in ground arith

    nonempty_digits : (k : ℕ) → nonempty_all is_digit (str k) ≡ true
    nonempty_digits k =
        let (d, s, e) = str-cons k in
        rw e (
          rw e at (all_of_All is_digit (str k) (All-mono _ _ digit_of_decimal (str k) (All-str k))))

vlan_lower : (s : Text) → All IsPlain s → drop 4 (lower (codes "Vlan" ++ s)) ≡ s
unfolding lower
vlan_lower s l = lower-IsPlain s l

normalize_stripped-vlan :
    (s : Text) → All IsPlain s → normalize_stripped (codes "Vlan" ++ s) ≡ normalize_vlan s
unfolding normalize_stripped lower
normalize_stripped-vlan s l = ap normalize_vlan (vlan_lower s l)

normalize-vlan : (n : ℕ) → normalize_interface (codes "Vlan" ++ str n) ≡ ok (codes "Vlan" ++ str n)
unfolding is_control is_space
normalize-vlan n =
    normalize_spelt (codes "Vlan") (str n) b'V' (codes "lan") refl
      (any_control-IsPlain (str n) (str-IsPlain n)) (ground arith) (str-IsPlain n)
    ∙ normalize_stripped-vlan (str n) (str-IsPlain n)
    ∙ normalize_vlan-str n

-- A canonical name is its own normal form.
pub normalize_interface_fixed : (c : Text) → IsCanonical c → normalize_interface c ≡ ok c
normalize_interface_fixed c (vlan n e) =
    subst (λ t. normalize_interface t ≡ ok t) (sym e) (normalize-vlan n)
normalize_interface_fixed c (two m a b e) =
    subst (λ t. normalize_interface t ≡ ok t) (sym e)
      (normalize-long_name m _ (join-IsPlain (a ∷ b ∷ [])) ∙ normalize_suffix-two (long_name m) a b)
normalize_interface_fixed c (three m a b d e) =
    subst (λ t. normalize_interface t ≡ ok t) (sym e)
      (normalize-long_name m _ (join-IsPlain (a ∷ b ∷ d ∷ []))
        ∙ normalize_suffix-three (long_name m) a b d)

-- What `normalize_interface` accepts it accepts again, unchanged.
pub normalize_interface_idem :
    (name c : Text) → normalize_interface name ≡ ok c → normalize_interface c ≡ ok c
normalize_interface_idem name c h =
    normalize_interface_fixed c (normalize_interface-IsCanonical name h)
