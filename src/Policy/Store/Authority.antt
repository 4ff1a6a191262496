-- ===== src/Policy/Store/Authority.antt =====
-- Who may write: what the operations of the policy store grant, and what they never grant.
pub mod Grants
use switch_ops.Prelude.{
  ℕ, ◌≡◌, ◌≢◌, ap, subst, ◌∙◌, true, false, ◌&&◌, some, [], ◌∷◌, arith, if◌then◌else◌, Bool-cases,
  inl, inr, All, ok, >>=-eq-ok, ◌>>=◌,
}
use switch_ops.Text.{Text, text_eq, text_eq_iff}
use switch_ops.Text.Dict.{
  Dict, lookup, insert, lookup-insert, lookup-remove, All-insert, All-remove,
}
use switch_ops.Text.Dict.Distinct.{Distinct-insert, Distinct-remove}
use switch_ops.Registry.Names.{
  normalize_interface, is_physical_interface, assert_interface_writable,
}
use switch_ops.Registry.Names.Writable.{assert_interface_writable_iff}
use switch_ops.Registry.Names.Fixed.{normalize_interface_idem}
use switch_ops.Policy.Model.{
  PolicyState, protected, operable, unmanaged, parse_state, Interfaces, Policy, Stored,
  is_device_key,
}
use switch_ops.Policy.File.{load, written}
use switch_ops.Policy.File.Valid.{
  IsEntry, IsInterfaces, IsDevice, IsWellFormed, insert-IsInterfaces, empty_dict-IsInterfaces,
}
use switch_ops.Policy.File.RoundTrip.{load-written}
use switch_ops.Policy.Store.{
  interfaces_of, stored_state, find_state, change_device, put_state, check_grant, known_state,
  device_key, state_for, write_state, set_state,
}

stored_state-put_state :
    (c j : Text) (s : PolicyState) (d : Interfaces)
    → stored_state j (put_state c s d) ≡ (if text_eq c j then s else stored_state j d)
unfolding stored_state put_state
stored_state-put_state c j protected d = ground (arith, lookup-insert c j protected d)
stored_state-put_state c j operable d = ground (arith, lookup-insert c j operable d)
stored_state-put_state c j unmanaged d = ground (arith, lookup-remove c j d)

interfaces_of-insert :
    (k j : Text) (d : Interfaces) (ds : Dict Interfaces)
    → interfaces_of j (insert k d ds) ≡ (if text_eq k j then d else interfaces_of j ds)
unfolding interfaces_of
interfaces_of-insert k j d ds = ground (arith, lookup-insert k j d ds)

-- A write of one entry changes the state found for that device and interface, and no other.
find_state-change_device :
    (p : Policy) (k c j i : Text) (s : PolicyState)
    → find_state (change_device p k (put_state c s)) j i
      ≡ (if text_eq k j && text_eq c i then s else find_state p j i)
unfolding find_state change_device
find_state-change_device p k c j i s =
    rw (interfaces_of-insert k j (put_state c s (interfaces_of k p.devices)) p.devices)
      (elim (Bool-cases (text_eq k j)) [
        | inl e ↦ rw e (
            stored_state-put_state c i s (interfaces_of k p.devices)
            ∙ ap
                (λ (t : Text).
                  if text_eq c i then s else stored_state i (interfaces_of t p.devices))
                ((text_eq_iff k j).0 e))
        | inr e ↦ rw e
      ])

interfaces_of-IsInterfaces :
    (k : Text) (ds : Dict Interfaces)
    → All (λ e. IsDevice e.0 e.1) ds
    → IsInterfaces (interfaces_of k ds)
unfolding interfaces_of lookup
interfaces_of-IsInterfaces k [] h = empty_dict-IsInterfaces
interfaces_of-IsInterfaces k ((j, d) ∷ ds) h = elim (Bool-cases (text_eq j k)) [
  | inl e ↦ rw (e, interfaces_of) h.0.interfaces
  | inr e ↦ rw (e, interfaces_of) (interfaces_of-IsInterfaces k ds h.1)
]

put_state-IsInterfaces :
    (c : Text) (s : PolicyState) (d : Interfaces)
    → IsEntry c s
    → IsInterfaces d
    → IsInterfaces (put_state c s d)
unfolding put_state
put_state-IsInterfaces c protected d e h = insert-IsInterfaces c protected d e h
put_state-IsInterfaces c operable d e h = insert-IsInterfaces c operable d e h
put_state-IsInterfaces c unmanaged d e h = record {
  distinct = Distinct-remove c d h.distinct;
  entries = All-remove IsEntry c d h.entries;
}

change_device-IsWellFormed :
    (p : Policy) (k c : Text) (s : PolicyState)
    → is_device_key k ≡ true
    → IsEntry c s
    → IsWellFormed p
    → IsWellFormed (change_device p k (put_state c s))
unfolding change_device
change_device-IsWellFormed p k c s key e h = record {
  distinct = Distinct-insert k _ p.devices h.distinct;
  devices =
      All-insert IsDevice k _ p.devices
        (record {
          digest = key;
          interfaces =
              put_state-IsInterfaces c s _ e (interfaces_of-IsInterfaces k p.devices h.devices);
        })
        h.devices;
}

check_grant-physical :
    (canonical : Text) (s : PolicyState)
    → normalize_interface canonical ≡ ok canonical
    → check_grant s canonical ≡ ok tt
    → s ≡ operable
    → is_physical_interface canonical ≡ ok true
unfolding check_grant
check_grant-physical canonical protected n h e = absurd (cc)
check_grant-physical canonical operable n h e =
    let (t, a, f) = >>=-eq-ok (assert_interface_writable canonical) _ h in
    let (b, p) = (assert_interface_writable_iff canonical t).0 a in
    let q : t ≡ canonical = cc (n, b) in subst (λ x. is_physical_interface x ≡ ok true) q p
check_grant-physical canonical unmanaged n h e = absurd (cc)

-- No entry is written into a file that is refused.
pub set_state-refused :
    (digest : Text → Text) (stored : Stored)
    → (load stored).1 ≡ true
    → (device name text : Text) (after : Stored)
    → set_state digest device name text stored ≢ ok after
unfolding set_state known_state write_state
set_state-refused digest stored bad [] name text after e = cc (e)
set_state-refused digest stored bad (c ∷ h) name text after e =
    let (canonical, n, f) = >>=-eq-ok (normalize_interface name) _ e in
    let (parsed, k, g) = >>=-eq-ok (known_state text) _ f in
    let (u, grant, w) = >>=-eq-ok (check_grant parsed canonical) _ g in ground (arith, bad, w)

-- The state that `state_for` sees in what was written.
module _ (digest : Text → Text) (hex : (t : Text) → is_device_key (digest t) ≡ true) where
  state_for-written :
      (c : ℕ) (h interface canonical : Text) (p : Policy)
      → IsWellFormed p
      → normalize_interface interface ≡ ok canonical
      → state_for digest (some (c ∷ h)) interface (written p)
        ≡ ok (find_state p (device_key digest (c ∷ h)) canonical)
  unfolding state_for
  state_for-written c h interface canonical p w n = rw n (rw (load-written p w))

  device_key-hex : (h : Text) → is_device_key (device_key digest h) ≡ true
  unfolding device_key
  device_key-hex h = hex _

  -- What `set_state` wrote: the old policy with one entry changed, in a valid file.
  record Wrote (c : ℕ) (h interface : Text) (s : PolicyState) (stored after : Stored) : Type 0 where
    canonical : Text
    normal : normalize_interface interface ≡ ok canonical
    entry : IsEntry canonical s
    valid : (load stored).1 ≡ false
    content :
        after
        ≡ written
            (change_device (load stored).0 (device_key digest (c ∷ h)) (put_state canonical s))

  set_state-Wrote :
      (c : ℕ) (h interface text : Text) (s : PolicyState) (stored after : Stored)
      → parse_state text ≡ some s
      → set_state digest (c ∷ h) interface text stored ≡ ok after
      → Wrote c h interface s stored after
  unfolding set_state known_state write_state
  set_state-Wrote c h interface text s stored after p e =
      let (canonical, n, f) = >>=-eq-ok (normalize_interface interface) _ e in
      let (parsed, k, g) = >>=-eq-ok (known_state text) _ f in
      let (u, grant, w) = >>=-eq-ok (check_grant parsed canonical) _ g in
      let same : parsed ≡ s = ground (arith, p, k) in
      let fixed = normalize_interface_idem interface canonical n in
      record {
        canonical = canonical;
        normal = n;
        entry = record {
          canonical = fixed;
          physical =
              check_grant-physical canonical s fixed
                (subst (λ t. check_grant t canonical ≡ ok tt) same grant);
        };
        valid = ground (arith, w);
        content = ground (arith, w, same);
      }
