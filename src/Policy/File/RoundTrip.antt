-- ===== src/Policy/File/RoundTrip.antt =====
-- `_write_unlocked` followed by `_load_unlocked`.
use mathlib.Core.List.{append-nil}
use switch_ops.Prelude.{◌≡◌, refl, sym, ap, false, [], ◌∷◌, ◌++◌, All, ok}
use switch_ops.Text.{Text, codes}
use switch_ops.Text.Dict.{Dict, insert}
use switch_ops.Text.Dict.Distinct.{Distinct, insert-append}
use switch_ops.Policy.Model.{
  PolicyState, protected, operable, unmanaged, state_text, parse_state, Interfaces, Policy, string,
  object, end, field,
}
use switch_ops.Policy.File.{
  get_field, check_version, read_boolean, read_object, read_state, check_operable, read_interfaces,
  read_device, read_devices, read_policy, settle, load, encode_interfaces, encode_devices, written,
}
use switch_ops.Policy.File.Valid.{IsEntry, IsDevice, IsWellFormed}

read_state-state_text : (s : PolicyState) → read_state (string (state_text s)) ≡ ok s
unfolding read_state parse_state state_text
read_state-state_text protected = refl
read_state-state_text operable = refl
read_state-state_text unmanaged = refl

check_operable-entry :
    (name : Text) (s : PolicyState) → IsEntry name s → check_operable s name ≡ ok tt
unfolding check_operable
check_operable-entry name protected e = refl
check_operable-entry name operable e = rw (e.physical refl)
check_operable-entry name unmanaged e = refl

-- The loop over the encoded interfaces puts them behind those already read.
read_interfaces-encode :
    (acc d : Interfaces)
    → Distinct (acc ++ d)
    → All (λ e. IsEntry e.0 e.1) d
    → read_interfaces acc (encode_interfaces d) ≡ ok (acc ++ d)
unfolding read_interfaces encode_interfaces
read_interfaces-encode acc [] h e = ap ok (sym (append-nil acc))
read_interfaces-encode acc ((name, state) ∷ d) h e = rw (e.0.canonical) (
    rw (read_state-state_text state) (
      rw (check_operable-entry name state e.0) (
        rw (← insert-append name state acc d h) (
          read_interfaces-encode (insert name state acc) d (rw (insert-append name state acc d h) h)
            e.1))))

read_device-encode :
    (key : Text) (d : Interfaces)
    → IsDevice key d
    → read_device key (object (field (codes "interfaces") (object (encode_interfaces d)) end))
      ≡ ok d
unfolding read_device
read_device-encode key d h =
    rw h.digest (read_interfaces-encode [] d h.interfaces.distinct h.interfaces.entries)

read_devices-encode :
    (acc d : Dict Interfaces)
    → Distinct (acc ++ d)
    → All (λ e. IsDevice e.0 e.1) d
    → read_devices acc (encode_devices d) ≡ ok (acc ++ d)
unfolding read_devices encode_devices
read_devices-encode acc [] h e = ap ok (sym (append-nil acc))
read_devices-encode acc ((key, interfaces) ∷ d) h e = rw (read_device-encode key interfaces e.0) (
    rw (← insert-append key interfaces acc d h) (
      read_devices-encode (insert key interfaces acc) d
        (rw (insert-append key interfaces acc d h) h) e.1))

-- A well-formed policy that is written is loaded again, and the file is accepted.
pub load-written : (p : Policy) → IsWellFormed p → load (written p) ≡ (p, false)
unfolding load written read_policy get_field read_boolean read_object check_version settle
load-written p h = rw (read_devices-encode [] p.devices h.distinct h.devices)
