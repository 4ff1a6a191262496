-- ===== src/Policy/File/Valid.antt =====
-- Well-formed policies, and what `_load_unlocked` and the writes give.
use switch_ops.Prelude.{
  ◌≡◌, refl, subst, true, [], arith, Bool-cases, inl, inr, All, Result, ok, err, >>=-eq-ok,
}
use switch_ops.Text.{Text, codes}
use switch_ops.Text.Dict.{Dict, insert, All-insert}
use switch_ops.Text.Dict.Distinct.{Distinct, Distinct-insert}
use switch_ops.Registry.Names.{normalize_interface, is_physical_interface}
use switch_ops.Registry.Names.Fixed.{normalize_interface_idem}
use switch_ops.Policy.Model.{
  PolicyState, protected, operable, unmanaged, Interfaces, Policy, empty_policy, Json, object,
  Fields, end, field, Stored, missing, unreadable, parsed, is_device_key,
}
use switch_ops.Policy.File.{
  get_field, check_version, read_boolean, read_object, read_state, check_operable, read_interfaces,
  read_device, read_devices, read_policy, settle, load,
}

-- A name in normal form; only a physical interface is operable.
pub record IsEntry (name : Text) (state : PolicyState) : Type 0 where
  pub canonical : normalize_interface name ≡ ok name
  pub physical : state ≡ operable → is_physical_interface name ≡ ok true

pub record IsInterfaces (d : Interfaces) : Type 0 where
  pub distinct : Distinct d
  pub entries : All (λ e. IsEntry e.0 e.1) d

pub record IsDevice (key : Text) (d : Interfaces) : Type 0 where
  pub digest : is_device_key key ≡ true
  pub interfaces : IsInterfaces d

pub record IsWellFormed (policy : Policy) : Type 0 where
  pub distinct : Distinct policy.devices
  pub devices : All (λ e. IsDevice e.0 e.1) policy.devices

pub empty-IsWellFormed : IsWellFormed empty_policy
empty-IsWellFormed = record { distinct = tt; devices = tt }

pub empty_dict-IsInterfaces : IsInterfaces []
empty_dict-IsInterfaces = record { distinct = tt; entries = tt }

pub insert-IsInterfaces :
    (name : Text) (state : PolicyState) (d : Interfaces)
    → IsEntry name state
    → IsInterfaces d
    → IsInterfaces (insert name state d)
insert-IsInterfaces name state d e h = record {
  distinct = Distinct-insert name state d h.distinct;
  entries = All-insert IsEntry name state d e h.entries;
}

check_operable-physical :
    (state : PolicyState) (name : Text)
    → check_operable state name ≡ ok tt
    → state ≡ operable
    → is_physical_interface name ≡ ok true
unfolding check_operable
check_operable-physical operable name h p =
    let (b, e, f) = >>=-eq-ok (is_physical_interface name) _ h in ground arith
check_operable-physical protected name h p = absurd (cc)
check_operable-physical unmanaged name h p = absurd (cc)

read_interfaces-IsInterfaces :
    (acc d : Interfaces) (fs : Fields)
    → IsInterfaces acc
    → read_interfaces acc fs ≡ ok d
    → IsInterfaces d
unfolding read_interfaces
read_interfaces-IsInterfaces acc d end i h = let q : acc ≡ d = cc h in subst IsInterfaces q i
read_interfaces-IsInterfaces acc d (field name value rest) i h =
    let (canonical, a, f) = >>=-eq-ok (normalize_interface name) _ h in
    let (state, b, g) = >>=-eq-ok (read_state value) _ f in
    let (u, c, k) = >>=-eq-ok (check_operable state canonical) _ g in
    read_interfaces-IsInterfaces (insert canonical state acc) d rest
      (insert-IsInterfaces canonical state acc
        (record {
          canonical = normalize_interface_idem name canonical a;
          physical = check_operable-physical state canonical c;
        })
        i)
      k

read_device-IsDevice :
    (key : Text) (value : Json) (d : Interfaces) → read_device key value ≡ ok d → IsDevice key d
unfolding read_device
read_device-IsDevice key (object device) d h = elim (Bool-cases (is_device_key key)) [
  | inl e ↦
      let (fs, a, f) =
        >>=-eq-ok (read_object (get_field (codes "interfaces") device)) _ (rw e at h) in
      record {
        digest = e;
        interfaces = read_interfaces-IsInterfaces [] d fs empty_dict-IsInterfaces f;
      }
  | inr e ↦ absurd (cc (rw e at h))
]
read_device-IsDevice key _ d h = absurd (cc)

read_devices-All :
    (acc d : Dict Interfaces) (fs : Fields)
    → Distinct acc × All (λ e. IsDevice e.0 e.1) acc
    → read_devices acc fs ≡ ok d
    → Distinct d × All (λ e. IsDevice e.0 e.1) d
unfolding read_devices
read_devices-All acc d end i h =
    let q : acc ≡ d = cc h in subst (λ t. Distinct t × All (λ e. IsDevice e.0 e.1) t) q i
read_devices-All acc d (field key device rest) i h =
    let (interfaces, a, f) = >>=-eq-ok (read_device key device) _ h in
    read_devices-All (insert key interfaces acc) d rest
      (
        Distinct-insert key interfaces acc i.0,
        All-insert IsDevice key interfaces acc (read_device-IsDevice key device interfaces a) i.1,
      )
      f

read_policy-IsWellFormed : (raw : Json) (p : Policy) → read_policy raw ≡ ok p → IsWellFormed p
unfolding read_policy
read_policy-IsWellFormed (object raw) p h =
    let (u, a, f) = >>=-eq-ok (check_version (get_field (codes "schemaVersion") raw)) _ h in
    let (enabled, b, g) =
      >>=-eq-ok (read_boolean (get_field (codes "controlledWritesEnabled") raw)) _ f in
    let (fs, c, k) = >>=-eq-ok (read_object (get_field (codes "devices") raw)) _ g in
    let (ds, d, l) = >>=-eq-ok (read_devices [] fs) _ k in
    let q : record { controlled_writes_enabled = enabled; devices = ds } ≡ p = cc l in
    let (x, y) = read_devices-All [] ds fs (tt, tt) d in
    subst IsWellFormed q (record { distinct = x; devices = y })
read_policy-IsWellFormed _ p h = absurd (cc)

-- Any content of the file: what is loaded is well formed. So no entry that the file grants is for
-- an interface that is not physical, or under a name that is not in normal form.
pub load-IsWellFormed : (stored : Stored) → IsWellFormed (load stored).0
unfolding load settle
load-IsWellFormed missing = empty-IsWellFormed
load-IsWellFormed unreadable = empty-IsWellFormed
load-IsWellFormed (parsed raw) = from_result (read_policy raw) refl
  where
    from_result : (r : Result Policy) → read_policy raw ≡ r → IsWellFormed (settle r).0
    from_result (ok p) e = read_policy-IsWellFormed raw p e
    from_result (err x) e = empty-IsWellFormed
