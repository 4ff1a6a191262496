-- ===== src/Examples/Policies.antt =====
-- Policy files: one that grants, one with a broken entry, and writes to them.
use switch_ops.Prelude.{
  ◌≡◌, ◌≢◌, ◌↔◌, refl, Bool, true, false, some, [], ◌∷◌, ok, err, write_actions_disabled,
}
use switch_ops.Text.{Text, codes, is_space, text_eq_iff}
use switch_ops.Registry.Names.{normalize_interface, assert_interface_writable}
use switch_ops.Registry.Names.Writable.{IsPort}
use switch_ops.Policy.Model.{
  protected, operable, unmanaged, parse_state, Stored, parsed, Policy, is_device_key, string,
}
use switch_ops.Policy.File.{load, written}
use switch_ops.Policy.File.Valid.{IsWellFormed, load-IsWellFormed}
use switch_ops.Policy.File.RoundTrip.{load-written}
use switch_ops.Policy.Store.{
  controlled_writes_enabled, set_controlled_writes, device_key, state_for, set_state,
  ensure_protected, assert_operable, operation_guard,
}
use switch_ops.Policy.Store.Authority.Grants.{
  assert_operable_iff, operation_guard_sound, refused_file, state_for-set_state,
  ensure_protected-never_grants,
}
use switch_ops.Examples.Device.{digest, digest_hex, host, port, file, granting}

abbrev gi : Text
gi = codes "gi0/1"

-- A string where the policy should be.
abbrev broken : Stored
broken = parsed (string (codes "OPERABLE"))

-- The file after the port of the example, or another one, is protected.
abbrev protecting : Policy
protecting = record {
  controlled_writes_enabled = true;
  devices = (digest host, (port, protected) ∷ []) ∷ [];
}

abbrev two_ports : Policy
two_ports = record {
  controlled_writes_enabled = true;
  devices = (digest host, (port, operable) ∷ (codes "GigabitEthernet0/2", protected) ∷ []) ∷ [];
}

guarded : operation_guard digest (some host) gi file ≡ ok port
unfolding operation_guard written is_device_key
guarded = refl

broken_refused : (load broken).1 ≡ true
unfolding load
broken_refused = refl

gi_normal : normalize_interface gi ≡ ok port
unfolding normalize_interface is_space
gi_normal = refl

set_protected : set_state digest host gi (codes "PROTECTED") file ≡ ok (written protecting)
unfolding set_state written is_device_key parse_state device_key
set_protected = refl

ensured : ensure_protected digest (some host) (some (codes "gi0/2")) file ≡ ok (written two_ports)
unfolding ensure_protected written is_device_key device_key
ensured = refl

still_granted : assert_operable digest (some host) gi (written two_ports) ≡ ok port
unfolding assert_operable written is_device_key
still_granted = refl

protected_parsed : parse_state (codes "PROTECTED") ≡ some protected
unfolding parse_state
protected_parsed = refl

gi2_normal : normalize_interface (codes "gi0/2") ≡ ok (codes "GigabitEthernet0/2")
unfolding normalize_interface is_space
gi2_normal = refl

other_port : port ≢ codes "GigabitEthernet0/2"
other_port h = cc ((text_eq_iff port (codes "GigabitEthernet0/2")).1 h)

-- The loaded policy of the example is well formed.
granting-IsWellFormed : IsWellFormed granting
unfolding load written is_device_key
granting-IsWellFormed = load-IsWellFormed file

load-IsWellFormed_example : IsWellFormed (load broken).0
load-IsWellFormed_example = load-IsWellFormed broken

load-written_example : load (written granting) ≡ (granting, false)
load-written_example = load-written granting granting-IsWellFormed

assert_operable_iff_example : (assert_operable digest (some host) gi file ≡ ok port) ↔ (
    (assert_interface_writable gi ≡ ok port)
    × ((load file).1 ≡ false)
    × (state_for digest (some host) gi file ≡ ok operable))
assert_operable_iff_example = assert_operable_iff digest (some host) gi port file

operation_guard_sound_example :
    (controlled_writes_enabled file ≡ true)
    × IsPort port
    × (normalize_interface gi ≡ ok port)
    × (state_for digest (some host) gi file ≡ ok operable)
operation_guard_sound_example = operation_guard_sound digest (some host) gi port file guarded

refused_file_example :
    (operation_guard digest (some host) gi broken ≡ err write_actions_disabled)
    × (state_for digest (some host) gi broken ≡ ok unmanaged)
    × ((c : Text) → assert_operable digest (some host) gi broken ≢ ok c)
    × ((b : Bool) (s : Stored) → set_controlled_writes b broken ≢ ok s)
    × ((device name state : Text) (s : Stored) → set_state digest device name state broken ≢ ok s)
refused_file_example = refused_file digest (some host) gi port broken broken_refused gi_normal

state_for-set_state_example : state_for digest (some host) gi (written protecting) ≡ ok protected
state_for-set_state_example =
    state_for-set_state digest digest_hex b'1' (codes "92.0.2.1") gi (codes "PROTECTED") protected
      file (written protecting) protected_parsed set_protected

ensure_protected-never_grants_example : assert_operable digest (some host) gi file ≡ ok port
ensure_protected-never_grants_example =
    ensure_protected-never_grants digest digest_hex (some host) (some (codes "gi0/2")) (some host)
      gi port file (written two_ports) ensured still_granted
