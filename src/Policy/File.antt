-- ===== src/Policy/File.antt =====
-- `_load_unlocked` and `_write_unlocked`: what the file says, validated, and what is written to it.
pub mod Valid
pub mod RoundTrip
use switch_ops.Prelude.{
  Bool, true, false, Option, none, some, [], ◌∷◌, ◌==◌, if◌then◌else◌, Result, ok, err, value_error,
  ◌>>=◌,
}
use switch_ops.Text.{Text, codes, text_eq}
use switch_ops.Text.Dict.{Dict, insert}
use switch_ops.Registry.Names.{normalize_interface, is_physical_interface}
use switch_ops.Policy.Model.{
  PolicyState, protected, operable, unmanaged, state_text, parse_state, Interfaces, Policy,
  empty_policy, Json, boolean, number, string, object, Fields, end, field, Stored, missing,
  unreadable, parsed, is_device_key,
}

-- raw.get(name), `none` for a name that is not there.
get_field : Text → Fields → Option Json
get_field name end = none
get_field name (field k v fs) = if text_eq k name then some v else get_field name fs

-- The checks of the schema; each failure is a ValueError. (True equals 1 in Python.)
check_version : Option Json → Result (Unit {0})
check_version (some (number n)) = if n == 1 then ok tt else err value_error
check_version (some (boolean true)) = ok tt
check_version _ = err value_error

read_boolean : Option Json → Result Bool
read_boolean (some (boolean b)) = ok b
read_boolean _ = err value_error

read_object : Option Json → Result Fields
read_object (some (object fs)) = ok fs
read_object _ = err value_error

read_state : Json → Result PolicyState
unfolding parse_state
read_state (string s) = elim (parse_state s) [ some p ↦ ok p | none ↦ err value_error ]
read_state _ = err value_error

-- An interface that is not physical must not be operable.
check_operable : PolicyState → Text → Result (Unit {0})
unfolding is_physical_interface
check_operable operable canonical = do
  physical ← is_physical_interface canonical
  if physical then ok tt else err value_error
check_operable protected canonical = ok tt
check_operable unmanaged canonical = ok tt

-- The loop over the interfaces of one device; a later entry of one name overwrites.
read_interfaces : Interfaces → Fields → Result Interfaces
unfolding read_state check_operable insert
read_interfaces acc end = ok acc
read_interfaces acc (field name value rest) = normalize_interface name >>= λ canonical.
    read_state value >>= λ state.
    check_operable state canonical >>= λ _. read_interfaces (insert canonical state acc) rest

read_device : Text → Json → Result Interfaces
unfolding read_object get_field read_interfaces
read_device key (object device) =
    if is_device_key key
    then (do
      interfaces ← read_object (get_field (codes "interfaces") device)
      read_interfaces [] interfaces)
    else err value_error
read_device key _ = err value_error

read_devices : Dict Interfaces → Fields → Result (Dict Interfaces)
unfolding read_device
read_devices acc end = ok acc
read_devices acc (field key device rest) =
    read_device key device >>= λ interfaces. read_devices (insert key interfaces acc) rest

read_policy : Json → Result Policy
unfolding check_version read_boolean read_devices
read_policy (object raw) = do
  _ ← check_version (get_field (codes "schemaVersion") raw)
  enabled ← read_boolean (get_field (codes "controlledWritesEnabled") raw)
  devices ← read_object (get_field (codes "devices") raw)
  validated ← read_devices [] devices
  ok (record { controlled_writes_enabled = enabled; devices = validated })
read_policy _ = err value_error

-- `except Exception`: any failure of the validation leaves the empty policy.
settle : Result Policy → Policy × Bool
settle (ok policy) = (policy, false)
settle (err _) = (empty_policy, true)

-- The policy, and whether the file is refused: then the policy is the empty one.
unfoldable pub load : Stored → Policy × Bool
unfolding read_policy settle
load missing = (empty_policy, false)
load unreadable = (empty_policy, true)
load (parsed raw) = settle (read_policy raw)

encode_interfaces : Interfaces → Fields
unfolding state_text
encode_interfaces [] = end
encode_interfaces ((name, state) ∷ rest) =
    field name (string (state_text state)) (encode_interfaces rest)

encode_devices : Dict Interfaces → Fields
unfolding encode_interfaces
encode_devices [] = end
encode_devices ((key, interfaces) ∷ rest) =
    field key (object (field (codes "interfaces") (object (encode_interfaces interfaces)) end))
      (encode_devices rest)

-- What the file holds after `_write_unlocked(data)`. The order of keys is not kept in the source.
unfoldable pub written : Policy → Stored
unfolding encode_devices
written policy = parsed (
    object (
      field (codes "schemaVersion") (number 1) (
        field (codes "controlledWritesEnabled") (boolean policy.controlled_writes_enabled)
          (field (codes "devices") (object (encode_devices policy.devices)) end))))
