-- ===== src/Registry/Names/Short.antt =====
-- The short names, and which names may be written to.
use switch_ops.Prelude.{
  ℕ, ◌≡◌, refl, sym, ap, subst, ◌∙◌, true, false, some, List, [], ◌∷◌, ◌++◌, map, arith, length,
  drop, any, All, ok, >>=-eq-ok,
}
use switch_ops.Text.{
  Text, codes, is_decimal, is_space, lower, str, starts_with, join, HasNoSpace, str-cons, All-str,
}
use switch_ops.Registry.Names.{
  short_prefixes, find_prefix, is_control, normalize_suffix, normalize_physical, normalize_stripped,
  normalize_interface, shorten, short_interface,
}
use switch_ops.Registry.Names.Canonical.{
  Medium, fast, gigabit, ten_gigabit, twenty_five_gigabit, forty_gigabit, hundred_gigabit,
  long_name, numbered, IsCanonical, vlan, two, three, normalize_interface-IsCanonical,
}
use switch_ops.Registry.Names.Fixed.{
  IsPlain, lower-IsPlain, join-IsPlain, any_control-IsPlain, normalize_spelt, normalize_suffix-two,
  normalize_suffix-three, normalize_interface_fixed,
}

abbrev pub short_name : Medium → Text
short_name fast = codes "Fa"
short_name gigabit = codes "Gi"
short_name ten_gigabit = codes "Te"
short_name twenty_five_gigabit = codes "Twe"
short_name forty_gigabit = codes "Fo"
short_name hundred_gigabit = codes "Hu"

pub shorten-long_name :
    (m : Medium) (s : Text) → shorten (long_name m ++ s) short_prefixes ≡ short_name m ++ s
unfolding shorten short_prefixes
shorten-long_name fast s = refl
shorten-long_name gigabit s = refl
shorten-long_name ten_gigabit s = refl
shorten-long_name twenty_five_gigabit s = refl
shorten-long_name forty_gigabit s = refl
shorten-long_name hundred_gigabit s = refl

shorten-vlan : (s : Text) → shorten (codes "Vlan" ++ s) short_prefixes ≡ codes "Vlan" ++ s
unfolding shorten short_prefixes
shorten-vlan s = refl

-- Behind a short name stands a digit, so no longer prefix fits.
find_prefix-short_name :
    (m : Medium) (c : ℕ) (s : Text)
    → is_decimal c ≡ true
    → find_prefix (lower (short_name m) ++ c ∷ s) ≡ some (lower (short_name m), long_name m)
unfolding find_prefix lower is_decimal
find_prefix-short_name fast c s h = ground arith
find_prefix-short_name gigabit c s h = ground arith
find_prefix-short_name ten_gigabit c s h = ground arith
find_prefix-short_name twenty_five_gigabit c s h = ground arith
find_prefix-short_name forty_gigabit c s h = ground arith
find_prefix-short_name hundred_gigabit c s h = ground arith

not_vlan-short_name :
    (m : Medium) (s : Text) → starts_with (codes "vlan") (lower (short_name m) ++ s) ≡ false
unfolding lower
not_vlan-short_name fast s = refl
not_vlan-short_name gigabit s = refl
not_vlan-short_name ten_gigabit s = refl
not_vlan-short_name twenty_five_gigabit s = refl
not_vlan-short_name forty_gigabit s = refl
not_vlan-short_name hundred_gigabit s = refl

drop-short_name :
    (m : Medium) (s : Text) → drop (length (lower (short_name m))) (short_name m ++ s) ≡ s
unfolding lower
drop-short_name fast s = refl
drop-short_name gigabit s = refl
drop-short_name ten_gigabit s = refl
drop-short_name twenty_five_gigabit s = refl
drop-short_name forty_gigabit s = refl
drop-short_name hundred_gigabit s = refl

lower-short_name :
    (m : Medium) (s : Text) → All IsPlain s → lower (short_name m ++ s) ≡ lower (short_name m) ++ s
unfolding lower
lower-short_name fast s l = cc (lower-IsPlain s l)
lower-short_name gigabit s l = cc (lower-IsPlain s l)
lower-short_name ten_gigabit s l = cc (lower-IsPlain s l)
lower-short_name twenty_five_gigabit s l = cc (lower-IsPlain s l)
lower-short_name forty_gigabit s l = cc (lower-IsPlain s l)
lower-short_name hundred_gigabit s l = cc (lower-IsPlain s l)

short_name-control :
    (m : Medium) (s : Text) → any is_control s ≡ false → any is_control (short_name m ++ s) ≡ false
unfolding is_control
short_name-control fast s h = h
short_name-control gigabit s h = h
short_name-control ten_gigabit s h = h
short_name-control twenty_five_gigabit s h = h
short_name-control forty_gigabit s h = h
short_name-control hundred_gigabit s h = h

short_name-HasNoSpace : (m : Medium) → HasNoSpace (short_name m)
unfolding is_space
short_name-HasNoSpace fast = ground arith
short_name-HasNoSpace gigabit = ground arith
short_name-HasNoSpace ten_gigabit = ground arith
short_name-HasNoSpace twenty_five_gigabit = ground arith
short_name-HasNoSpace forty_gigabit = ground arith
short_name-HasNoSpace hundred_gigabit = ground arith

short_name-cons : (m : Medium) → (c : ℕ) × (q : Text) × (short_name m ≡ c ∷ q)
short_name-cons fast = (b'F', codes "a", refl)
short_name-cons gigabit = (b'G', codes "i", refl)
short_name-cons ten_gigabit = (b'T', codes "e", refl)
short_name-cons twenty_five_gigabit = (b'T', codes "we", refl)
short_name-cons forty_gigabit = (b'F', codes "o", refl)
short_name-cons hundred_gigabit = (b'H', codes "u", refl)

normalize_stripped-short_name :
    (m : Medium) (c : ℕ) (s : Text)
    → is_decimal c ≡ true
    → All IsPlain (c ∷ s)
    → normalize_stripped (short_name m ++ c ∷ s) ≡ normalize_suffix (long_name m) (c ∷ s)
unfolding normalize_stripped normalize_physical
normalize_stripped-short_name m c s d l = rw (lower-short_name m (c ∷ s) l) (
    rw (not_vlan-short_name m (c ∷ s))
      (rw (find_prefix-short_name m c s d) (rw (drop-short_name m (c ∷ s)))))

pub numbered-cons :
    (a b : ℕ) (rest : List ℕ)
    → (c : ℕ) × (s : Text) × (is_decimal c ≡ true) × (numbered a b rest ≡ c ∷ s)
unfolding join
numbered-cons a b rest =
    let (c, s, e) = str-cons a in
    let digits : All (λ x. is_decimal x ≡ true) (c ∷ s) = rw e at (All-str a) in
    (
      c,
      s ++ b'/' ∷ join b'/' (map str (b ∷ rest)),
      digits.0,
      ap (λ t. t ++ b'/' ∷ join b'/' (map str (b ∷ rest))) e,
    )

normalize-short_name :
    (m : Medium) (a b : ℕ) (rest : List ℕ)
    → normalize_interface (short_name m ++ numbered a b rest)
      ≡ normalize_suffix (long_name m) (numbered a b rest)
normalize-short_name m a b rest =
    let l = join-IsPlain (a ∷ b ∷ rest) in
    let (c, q, e) = short_name-cons m in
    let (d, s, dec, f) = numbered-cons a b rest in
    normalize_spelt (short_name m) (numbered a b rest) c q e
      (short_name-control m _ (any_control-IsPlain _ l)) (short_name-HasNoSpace m) l
    ∙ subst
        (λ t.
          All IsPlain t → normalize_stripped (short_name m ++ t) ≡ normalize_suffix (long_name m) t)
        (sym f) (normalize_stripped-short_name m d s dec) l

shorten_canonical :
    (c : Text) → IsCanonical c → normalize_interface (shorten c short_prefixes) ≡ ok c
shorten_canonical c (vlan n e) =
    subst (λ t. normalize_interface (shorten t short_prefixes) ≡ ok t) (sym e)
      (rw (shorten-vlan (str n)) (normalize_interface_fixed _ (vlan n refl)))
shorten_canonical c (two m a b e) =
    subst (λ t. normalize_interface (shorten t short_prefixes) ≡ ok t) (sym e)
      (rw (shorten-long_name m (numbered a b []))
        (normalize-short_name m a b [] ∙ normalize_suffix-two (long_name m) a b))
shorten_canonical c (three m a b d e) =
    subst (λ t. normalize_interface (shorten t short_prefixes) ≡ ok t) (sym e)
      (rw (shorten-long_name m (numbered a b (d ∷ [])))
        (normalize-short_name m a b (d ∷ []) ∙ normalize_suffix-three (long_name m) a b d))

-- Where `short_interface` accepts a name, its result and the name have one normal form.
pub normalize-short :
    (name short : Text)
    → short_interface name ≡ ok short
    → normalize_interface short ≡ normalize_interface name
unfolding short_interface
normalize-short name short h =
    let (c, e, f) = >>=-eq-ok (normalize_interface name) _ h in
    subst (λ t. normalize_interface t ≡ normalize_interface name) (g c f)
      (shorten_canonical c (normalize_interface-IsCanonical name e) ∙ sym e)
  where
    g : (c : Text) → ok (shorten c short_prefixes) ≡ ok short → shorten c short_prefixes ≡ short
    g c f = cc

not_Vlan-long_name : (m : Medium) (s : Text) → starts_with (codes "Vlan") (long_name m ++ s) ≡ false
not_Vlan-long_name fast s = refl
not_Vlan-long_name gigabit s = refl
not_Vlan-long_name ten_gigabit s = refl
not_Vlan-long_name twenty_five_gigabit s = refl
not_Vlan-long_name forty_gigabit s = refl
not_Vlan-long_name hundred_gigabit s = refl
