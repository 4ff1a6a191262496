-- ===== src/Examples/Names.antt =====
-- Names, descriptions, actions and the interface table.
use switch_ops.Prelude.{false, ◌≡◌, refl, true, some, [], ◌∷◌, ok, All}
use switch_ops.Models.{InterfaceStatus}
use switch_ops.Policy.Model.{unmanaged}
use switch_ops.Operations.Reads.{find_port, short_of}
use switch_ops.Operations.Reads.Ports.{find_port-short_interface}
use switch_ops.Text.{Text, codes, is_space}
use switch_ops.Registry.Names.{normalize_interface, short_interface, assert_interface_writable}
use switch_ops.Registry.Names.Canonical.{IsCanonical, normalize_interface-IsCanonical}
use switch_ops.Registry.Names.Writable.{assert_interface_writable-IsPort}
use switch_ops.Registry.Actions.{WriteAction, build_write_action, sanitize_description}
use switch_ops.Registry.Actions.Safety.{IsPrintable, build_write_action-IsPrintable}

abbrev given : Text
given = codes " TE1/0/07 "

abbrev normal : Text
normal = codes "TenGigabitEthernet1/0/7"

given_normal : normalize_interface given ≡ ok normal
unfolding normalize_interface is_space
given_normal = refl

given_writable : assert_interface_writable given ≡ ok normal
unfolding assert_interface_writable is_space
given_writable = refl

given_short : short_interface given ≡ ok (codes "Te1/0/7")
unfolding short_interface is_space
given_short = refl

described : sanitize_description (codes "  lab port ") ≡ ok (codes "lab port")
unfolding sanitize_description is_space
described = refl

abbrev describe : WriteAction
describe = record {
  name = codes "set_port_description";
  commands =
      codes "configure terminal"
      ∷ codes "interface GigabitEthernet0/1"
      ∷ codes "description lab"
      ∷ codes "end"
      ∷ [];
  interface = some (codes "GigabitEthernet0/1");
}

normalize_interface-IsCanonical_example : IsCanonical normal
normalize_interface-IsCanonical_example = normalize_interface-IsCanonical given given_normal

two_spaces : All (λ x. is_space x ≡ true) (codes "  ")
unfolding is_space
two_spaces = (refl, (refl, tt))

describe_built :
    build_write_action (codes "set_port_description") (some (codes "gi0/1")) (some (codes "lab"))
    ≡ ok describe
unfolding build_write_action is_space
describe_built = refl

build_write_action-IsPrintable_example : All (All IsPrintable) describe.commands
build_write_action-IsPrintable_example =
    build_write_action-IsPrintable (codes "set_port_description") (some (codes "gi0/1"))
      (some (codes "lab")) describe describe_built

abbrev table : Text
table =
    codes
      "Port      Name               Status       Vlan       Duplex  Speed Type\nGi0/1     uplink to core     connected    trunk      a-full a-1000 10/100/1000BaseTX\n"

abbrev ten_row : InterfaceStatus
ten_row = record {
  port = codes "Te1/0/7";
  name = [];
  status = codes "connected";
  vlan = codes "1";
  duplex = codes "full";
  speed = codes "10G";
  type_name = [];
  protected = false;
  policy_state = unmanaged;
}

normal_normal : normalize_interface normal ≡ ok normal
unfolding normalize_interface is_space
normal_normal = refl

normal_short : short_interface normal ≡ ok (codes "Te1/0/7")
unfolding short_interface is_space
normal_short = refl

find_port-short_interface_example :
    find_port (short_of normal) (ten_row ∷ []) ≡ find_port (short_of normal) []
find_port-short_interface_example =
    find_port-short_interface normal (codes "Te1/0/7") ten_row []
      (assert_interface_writable-IsPort given normal given_writable) refl normal_normal normal_short
      refl
