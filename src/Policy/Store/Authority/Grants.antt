-- ===== src/Policy/Store/Authority/Grants.antt =====
-- The contract of the policy store: what a write changes, and who is let through.
use switch_ops.Prelude.{
  ℕ, ◌≡◌, ◌≢◌, refl, sym, ap, subst, ◌∙◌, ◌↔◌, ◌⊎◌, Bool, true, false, ◌&&◌, Option, none, some, [],
  ◌∷◌, arith, Bool-cases, inl, inr, ok, err, write_actions_disabled, >>=-eq-ok,
}
use switch_ops.Text.{Text, text_eq, text_eq_iff, text_eq_refl}
use switch_ops.Registry.Names.{normalize_interface, assert_interface_writable}
use switch_ops.Registry.Names.Writable.{
  IsPort, assert_interface_writable_iff, assert_interface_writable-IsPort,
}
use switch_ops.Registry.Names.Fixed.{normalize_interface_idem}
use switch_ops.Policy.Model.{
  PolicyState, protected, operable, unmanaged, parse_state, Stored, is_device_key,
}
use switch_ops.Policy.File.{load, written}
use switch_ops.Policy.File.Valid.{IsEntry, load-IsWellFormed}
use switch_ops.Policy.Store.{
  find_state, change_device, put_state, controlled_writes_enabled, set_controlled_writes,
  device_key, state_for, set_state, protect, ensure_protected, operable_only, assert_operable,
  operation_guard,
}
use switch_ops.Policy.Store.Authority.{
  find_state-change_device, change_device-IsWellFormed, state_for-written, device_key-hex,
  set_state-Wrote, set_state-refused,
}

-- A write is about another entry when the device or the interface differs.
abbrev pub OtherEntry : Text → Text → Text → Text → Type 0
OtherEntry k c j i = (k ≢ j) ⊎ (c ≢ i)

other_entry : (k c j i : Text) → OtherEntry k c j i → (text_eq k j && text_eq c i) ≡ false
other_entry k c j i (inl d) = ground (arith, text_eq_iff k j, d)
other_entry k c j i (inr d) = ground (arith, text_eq_iff c i, d)

-- `assert_operable` lets a name through exactly when it is a physical target, the file is valid and
-- the state of the interface is OPERABLE for the host.
pub assert_operable_iff :
    (digest : Text → Text) (host : Option Text) (interface c : Text) (stored : Stored)
    → (assert_operable digest host interface stored ≡ ok c) ↔ (
        (assert_interface_writable interface ≡ ok c)
        × ((load stored).1 ≡ false)
        × (state_for digest host interface stored ≡ ok operable))
unfolding assert_operable state_for operable_only
assert_operable_iff digest none interface c stored = (
  λ h. absurd (let (d, e, f) = >>=-eq-ok (assert_interface_writable interface) _ h in cc),
  λ h. absurd (cc (h.2)),
)
assert_operable_iff digest (some []) interface c stored = (
  λ h. absurd (let (d, e, f) = >>=-eq-ok (assert_interface_writable interface) _ h in cc),
  λ h. absurd (cc (h.2)),
)
assert_operable_iff digest (some (a ∷ s)) interface c stored = (
  λ h.
      let (d, e, f) = >>=-eq-ok (assert_interface_writable interface) _ h in
      let n = ((assert_interface_writable_iff interface d).0 e).0 in ground (arith, e, f, n),
  λ h.
      let n = ((assert_interface_writable_iff interface c).0 h.0).0 in
      rw (h.0) (rw (h.1) (ground (arith, n, h.1, h.2))),
)

-- What passes the guard of a transaction: controlled writes are enabled in a valid file, and the
-- target is a physical port, in normal form, that the policy of the host says is OPERABLE.
pub operation_guard_sound :
    (digest : Text → Text) (host : Option Text) (interface c : Text) (stored : Stored)
    → operation_guard digest host interface stored ≡ ok c
    → (controlled_writes_enabled stored ≡ true)
      × IsPort c
      × (normalize_interface interface ≡ ok c)
      × (state_for digest host interface stored ≡ ok operable)
unfolding operation_guard
operation_guard_sound digest host interface c stored h =
    elim (Bool-cases (controlled_writes_enabled stored)) [
      | inl e ↦
          let (w, valid, state) =
            (assert_operable_iff digest host interface c stored).0 (rw e at h) in
          (
            e,
            assert_interface_writable-IsPort interface c w,
            ((assert_interface_writable_iff interface c).0 w).0,
            state,
          )
      | inr e ↦ absurd (cc (rw e at h))
    ]

-- A file that is refused grants nothing: no write is enabled, every guard raises, every interface
-- reads as UNMANAGED, and neither the switch for writes nor an entry can be set.
pub refused_file :
    (digest : Text → Text) (host : Option Text) (interface canonical : Text) (stored : Stored)
    → (load stored).1 ≡ true
    → normalize_interface interface ≡ ok canonical
    → (operation_guard digest host interface stored ≡ err write_actions_disabled)
      × (state_for digest host interface stored ≡ ok unmanaged)
      × ((c : Text) → assert_operable digest host interface stored ≢ ok c)
      × ((b : Bool) (s : Stored) → set_controlled_writes b stored ≢ ok s)
      × ((device name state : Text) (s : Stored) → set_state digest device name state stored ≢ ok s)
unfolding operation_guard controlled_writes_enabled state_for set_controlled_writes
refused_file digest host interface canonical stored bad n = (
  rw bad,
  unmanaged_state host,
  λ c h. cc (bad, ((assert_operable_iff digest host interface c stored).0 h).1),
  λ b s h. cc (rw bad at h),
  set_state-refused digest stored bad,
)
  where
    unmanaged_state : (o : Option Text) → state_for digest o interface stored ≡ ok unmanaged
    unmanaged_state none = refl
    unmanaged_state (some []) = refl
    unmanaged_state (some (a ∷ t)) = rw n (rw bad)

-- With a digest that is 64 hexadecimal digits.
module _ (digest : Text → Text) (hex : (t : Text) → is_device_key (digest t) ≡ true) where
  -- With a digest that is 64 hexadecimal digits, after a successful `set_state` the state of that
  -- interface for that host is the one that was set.
  pub state_for-set_state :
      (c : ℕ) (h interface text : Text) (s : PolicyState) (stored after : Stored)
      → parse_state text ≡ some s
      → set_state digest (c ∷ h) interface text stored ≡ ok after
      → state_for digest (some (c ∷ h)) interface after ≡ ok s
  state_for-set_state c h interface text s stored after p e =
      let w = set_state-Wrote digest hex c h interface text s stored after p e in
      let k = device_key digest (c ∷ h) in
      let old = (load stored).0 in
      subst (λ t. state_for digest (some (c ∷ h)) interface t ≡ ok s) (sym w.content)
        (state_for-written digest hex c h interface w.canonical
            (change_device old k (put_state w.canonical s))
            (change_device-IsWellFormed old k w.canonical s (device_key-hex digest hex (c ∷ h))
              w.entry (load-IsWellFormed stored))
            w.normal
          ∙ ap ok (
              find_state-change_device old k w.canonical k w.canonical s
              ∙ rw (text_eq_refl k) (rw (text_eq_refl w.canonical))))

  -- With such a digest, a successful `set_state` changes nothing else: the state of an interface with
  -- another normal form, or for a host with another key, is what it was.
  pub state_for-set_state_other :
      (c : ℕ) (h interface text : Text) (s : PolicyState) (d : ℕ) (g other i j : Text)
      (stored after : Stored)
      → parse_state text ≡ some s
      → set_state digest (c ∷ h) interface text stored ≡ ok after
      → normalize_interface interface ≡ ok i
      → normalize_interface other ≡ ok j
      → OtherEntry (device_key digest (c ∷ h)) i (device_key digest (d ∷ g)) j
      → state_for digest (some (d ∷ g)) other after ≡ state_for digest (some (d ∷ g)) other stored
  unfolding state_for
  state_for-set_state_other c h interface text s d g other i j stored after p e n m differ =
      let w = set_state-Wrote digest hex c h interface text s stored after p e in
      let k = device_key digest (c ∷ h) in
      let l = device_key digest (d ∷ g) in
      let old = (load stored).0 in
      let q : w.canonical ≡ i = cc (w.normal, n) in
      let found : find_state (change_device old k (put_state w.canonical s)) l j
          ≡ find_state old l j =
        find_state-change_device old k w.canonical l j s ∙ rw q (rw (other_entry k i l j differ)) in
      subst
        (λ t.
          state_for digest (some (d ∷ g)) other t ≡ state_for digest (some (d ∷ g)) other stored)
        (sym w.content)
        (state_for-written digest hex d g other j (change_device old k (put_state w.canonical s))
            (change_device-IsWellFormed old k w.canonical s (device_key-hex digest hex (c ∷ h))
              w.entry (load-IsWellFormed stored))
            m
          ∙ ap ok found
          ∙ rw m (rw w.valid))

  protect-cases :
      (h canonical : Text) (stored : Stored)
      → (protect digest h canonical stored ≡ stored)
        ⊎ (((load stored).1 ≡ false)
            × (protect digest h canonical stored
                ≡ written (
                    change_device
                      (load stored).0
                      (device_key digest h)
                      (put_state canonical protected))))
  unfolding protect
  protect-cases h canonical stored = ground arith

  protected-IsEntry :
      (name canonical : Text)
      → normalize_interface name ≡ ok canonical
      → IsEntry canonical protected
  protected-IsEntry name canonical n = record {
    canonical = normalize_interface_idem name canonical n;
    physical = λ e. absurd (cc);
  }

  protect-never_grants :
      (h name canonical : Text) (host : Option Text) (target c : Text) (stored : Stored)
      → normalize_interface name ≡ ok canonical
      → assert_operable digest host target (protect digest h canonical stored) ≡ ok c
      → assert_operable digest host target stored ≡ ok c
  unfolding state_for
  protect-never_grants h name canonical none target c stored n e =
      absurd
        (cc ((assert_operable_iff digest none target c (protect digest h canonical stored)).0 e).2)
  protect-never_grants h name canonical (some []) target c stored n e = absurd (
      cc
        ((assert_operable_iff digest (some []) target c (protect digest h canonical stored)).0 e).2)
  protect-never_grants h name canonical (some (d ∷ g)) target c stored n e =
      elim (protect-cases h canonical stored) [
        | inl same ↦ subst (λ t. assert_operable digest (some (d ∷ g)) target t ≡ ok c) same e
        | inr (valid, change) ↦
            let old = (load stored).0 in
            let k = device_key digest h in
            let l = device_key digest (d ∷ g) in
            let entry = protected-IsEntry name canonical n in
            let (writable, v, state) =
              (assert_operable_iff digest (some (d ∷ g)) target c
                  (protect digest h canonical stored)).0
                e in
            let m = ((assert_interface_writable_iff target c).0 writable).0 in
            let seen =
              state_for-written digest hex d g target c
                (change_device old k (put_state canonical protected))
                (change_device-IsWellFormed old k canonical protected (device_key-hex digest hex h)
                  entry (load-IsWellFormed stored))
                m in
            let now : find_state old l c ≡ operable = ground (
              arith,
              rw change at state,
              seen,
              find_state-change_device old k canonical l c protected,
            ) in
            (assert_operable_iff digest (some (d ∷ g)) target c stored).1
              (writable, valid, rw m (rw valid (rw now)))
      ]

  -- With such a digest, `ensure_protected` never grants authority: a target that passes afterwards,
  -- for whatever host, passed before with the same normal form.
  pub ensure_protected-never_grants :
      (host name : Option Text) (host' : Option Text) (target c : Text) (stored after : Stored)
      → ensure_protected digest host name stored ≡ ok after
      → assert_operable digest host' target after ≡ ok c
      → assert_operable digest host' target stored ≡ ok c
  unfolding ensure_protected
  ensure_protected-never_grants (some (a ∷ s)) (some (b ∷ t)) host' target c stored after e p =
      let (canonical, n, f) = >>=-eq-ok (normalize_interface (b ∷ t)) _ e in
      let q : after ≡ protect digest (a ∷ s) canonical stored = cc f in
      protect-never_grants (a ∷ s) (b ∷ t) canonical host' target c stored n
        (subst (λ u. assert_operable digest host' target u ≡ ok c) q p)
  ensure_protected-never_grants _ _ host' target c stored after e p =
      let q : after ≡ stored = cc e in subst (λ u. assert_operable digest host' target u ≡ ok c) q p
