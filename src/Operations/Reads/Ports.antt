-- ===== src/Operations/Reads/Ports.antt =====
-- The name that `_read_interface` looks for in the table of the switch.
use switch_ops.Prelude.{
  ℕ, zero, suc, ◌<◌, ap, ◌≡◌, ◌≢◌, refl, sym, subst, ◌∙◌, arith, true, false, List, [], ◌∷◌, ◌++◌,
  ok, Bool-cases, inl, inr,
}
use switch_ops.Models.{InterfaceStatus}
use switch_ops.Text.{Text, starts_with, text_eq, text_eq_iff, codes, is_decimal, to_lower, lower}
use switch_ops.Registry.Names.Canonical.{
  Medium, fast, gigabit, ten_gigabit, twenty_five_gigabit, forty_gigabit, hundred_gigabit,
  long_name, numbered,
}
use switch_ops.Registry.Names.{shorten, short_prefixes, short_interface, normalize_interface}
use switch_ops.Registry.Names.Writable.{IsPort, two_level, three_level}
use switch_ops.Registry.Names.Short.{short_name, shorten-long_name, numbered-cons}
use switch_ops.Operations.Reads.{short_of, find_port}

-- The character at an index.
abbrev letter : ℕ → Text → ℕ
letter k [] = 0
letter zero (c ∷ s) = c
letter (suc k) (c ∷ s) = letter k s

no_letter : (k c : ℕ) → is_decimal c ≡ true → 57 < k → k ≢ to_lower c
unfolding is_decimal to_lower
no_letter k c d h e = ground (arith, d, h, e)

-- Where the table has a digit the replacement leaves a letter of the long name.
apart :
    (m : Medium) (c : ℕ) (s : Text)
    → m ≢ gigabit
    → is_decimal c ≡ true
    → lower (short_of (long_name m ++ c ∷ s)) ≢ lower (short_name m ++ c ∷ s)
unfolding short_of lower
apart fast c s h d e = no_letter b's' c d (omega arith) (ap (letter 2) e)
apart gigabit c s h d e = h refl
apart ten_gigabit c s h d e = no_letter b'n' c d (omega arith) (ap (letter 2) e)
apart twenty_five_gigabit c s h d e = no_letter b'n' c d (omega arith) (ap (letter 3) e)
apart forty_gigabit c s h d e = no_letter b'r' c d (omega arith) (ap (letter 2) e)
apart hundred_gigabit c s h d e = no_letter b'n' c d (omega arith) (ap (letter 2) e)

apart_numbered :
    (m : Medium) (a b : ℕ) (rest : List ℕ)
    → m ≢ gigabit
    → lower (short_of (long_name m ++ numbered a b rest))
      ≢ lower (shorten (long_name m ++ numbered a b rest) short_prefixes)
apart_numbered m a b rest h =
    let (c, s, d, e) = numbered-cons a b rest in
    rw (shorten-long_name m (numbered a b rest)) (
      subst (λ t. lower (short_of (long_name m ++ t)) ≢ lower (short_name m ++ t)) (sym e)
        (apart m c s h d))

not_gigabit :
    (m : Medium) (s : Text)
    → starts_with (codes "GigabitEthernet") (long_name m ++ s) ≡ false
    → m ≢ gigabit
not_gigabit gigabit s h e = cc
not_gigabit fast s h e = cc
not_gigabit ten_gigabit s h e = cc
not_gigabit twenty_five_gigabit s h e = cc
not_gigabit forty_gigabit s h e = cc
not_gigabit hundred_gigabit s h e = cc

apart_port :
    (c : Text)
    → IsPort c
    → starts_with (codes "GigabitEthernet") c ≡ false
    → lower (short_of c) ≢ lower (shorten c short_prefixes)
apart_port c (two_level m a b e) h =
    subst (λ t. lower (short_of t) ≢ lower (shorten t short_prefixes)) (sym e)
      (apart_numbered m a b [] (
        not_gigabit m (numbered a b [])
          (subst (λ t. starts_with (codes "GigabitEthernet") t ≡ false) e h)))
apart_port c (three_level m a b d e) h =
    subst (λ t. lower (short_of t) ≢ lower (shorten t short_prefixes)) (sym e)
      (apart_numbered m a b (d ∷ []) (
        not_gigabit m (numbered a b (d ∷ []))
          (subst (λ t. starts_with (codes "GigabitEthernet") t ≡ false) e h)))

-- A port whose medium is not GigabitEthernet, and the row that names it as `short_interface` does: the
-- search of `_read_interface` passes the row by.
pub find_port-short_interface :
    (c short : Text) (i : InterfaceStatus) (rows : List InterfaceStatus)
    → IsPort c
    → starts_with (codes "GigabitEthernet") c ≡ false
    → normalize_interface c ≡ ok c
    → short_interface c ≡ ok short
    → i.port ≡ short
    → find_port (short_of c) (i ∷ rows) ≡ find_port (short_of c) rows
unfolding find_port short_interface
find_port-short_interface c short i rows p h n s e =
    let same : shorten c short_prefixes ≡ short = cc (rw n at s) in
    elim (Bool-cases (text_eq (lower i.port) (lower (short_of c)))) [
      | inl q ↦ absurd (
          apart_port c p h
            (sym ((text_eq_iff (lower i.port) (lower (short_of c))).0 q) ∙ ap lower (e ∙ sym same)))
      | inr q ↦ rw q
    ]
