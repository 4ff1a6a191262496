-- ===== src/Registry/Names/Writable.antt =====
-- Which names may be written to, and which interfaces count as physical.
use switch_ops.Prelude.{
  ◌≡◌, ◌↔◌, refl, sym, subst, ◌∙◌, Bool, true, false, not, ◌++◌, arith, if◌then◌else◌, ok, err,
  command_not_allowed, not_physical, >>=-eq-ok, ℕ, [], ◌∷◌,
}
use switch_ops.Text.{Text, codes, starts_with}
use switch_ops.Registry.Names.{
  normalize_interface, is_physical_interface, assert_interface_writable,
}
use switch_ops.Registry.Names.Canonical.{
  Medium, fast, gigabit, ten_gigabit, twenty_five_gigabit, forty_gigabit, hundred_gigabit,
  long_name, numbered, IsCanonical, vlan, two, three, normalize_interface-IsCanonical,
}
use switch_ops.Registry.Names.Fixed.{normalize_interface_fixed}

-- A name is accepted as a target exactly when its normal form is a physical interface.
pub assert_interface_writable_iff :
    (name c : Text)
    → (assert_interface_writable name ≡ ok c)
      ↔ ((normalize_interface name ≡ ok c) × (is_physical_interface c ≡ ok true))
unfolding assert_interface_writable
assert_interface_writable_iff name c = (
  λ h.
      let (d, e, f) = >>=-eq-ok (normalize_interface name) _ h in
      let (physical, g, k) = >>=-eq-ok (is_physical_interface d) _ f in read_off d physical e g k,
  λ h. rw (h.0) (rw (h.1)),
)
  where
    read_off :
        (d : Text) (physical : Bool)
        → normalize_interface name ≡ ok d
        → is_physical_interface d ≡ ok physical
        → (if physical then ok d else err (command_not_allowed not_physical)) ≡ ok c
        → (normalize_interface name ≡ ok c) × (is_physical_interface c ≡ ok true)
    read_off d true e g k =
        let q : d ≡ c = cc k in
        (
          subst (λ t. normalize_interface name ≡ ok t) q e,
          subst (λ t. is_physical_interface t ≡ ok true) q g,
        )
    read_off d false e g k = absurd (cc)

not_Vlan : (m : Medium) (s : Text) → starts_with (codes "Vlan") (long_name m ++ s) ≡ false
not_Vlan fast s = refl
not_Vlan gigabit s = refl
not_Vlan ten_gigabit s = refl
not_Vlan twenty_five_gigabit s = refl
not_Vlan forty_gigabit s = refl
not_Vlan hundred_gigabit s = refl

is_physical-canonical :
    (c : Text) → IsCanonical c → is_physical_interface c ≡ ok (not (starts_with (codes "Vlan") c))
unfolding is_physical_interface
is_physical-canonical c h = rw (normalize_interface_fixed c h, is_physical_interface)

-- A port of a switch: one of the six media, and two or three numbers.
pub data IsPort (c : Text) : Type 0 where
  two_level : (m : Medium) (a b : ℕ) → c ≡ long_name m ++ numbered a b [] → IsPort c
  three_level : (m : Medium) (a b d : ℕ) → c ≡ long_name m ++ numbered a b (d ∷ []) → IsPort c

IsPort-of_IsCanonical : (c : Text) → IsCanonical c → starts_with (codes "Vlan") c ≡ false → IsPort c
IsPort-of_IsCanonical c (vlan n e) h =
    absurd (false_true (subst (λ t. starts_with (codes "Vlan") t ≡ false) e h))
  where
    false_true : true ≡ false → ⊥
    false_true p = cc
IsPort-of_IsCanonical c (two m a b e) h = two_level m a b e
IsPort-of_IsCanonical c (three m a b d e) h = three_level m a b d e

-- Whatever name a caller gives, an accepted target is a physical port in normal form.
pub assert_interface_writable-IsPort :
    (name c : Text) → assert_interface_writable name ≡ ok c → IsPort c
assert_interface_writable-IsPort name c h =
    let (n, p) = (assert_interface_writable_iff name c).0 h in
    let canonical = normalize_interface-IsCanonical name n in
    IsPort-of_IsCanonical c canonical (flip (sym (is_physical-canonical c canonical) ∙ p))
  where
    flip : {b : Bool} → ok (not b) ≡ ok true → b ≡ false
    flip {b} q = ground arith
