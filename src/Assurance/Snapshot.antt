-- ===== src/Assurance/Snapshot.antt =====
-- `capture_assurance_snapshot`: six readings of the device and the context, made into evidence
-- without raw configuration or hardware addresses. `digest` is SHA-256 in hexadecimal.
use switch_ops.Prelude.{
  Bool, true, false, ◌&&◌, ◌||◌, not, Option, none, some, List, [], ◌∷◌, ◌++◌, leb, take, length,
  if◌then◌else◌, ◌>>=◌, Result, ok, err, command_not_allowed, unexpected_value, ℤ, pos,
}
use switch_ops.Text.{Text, codes, text_eq, lower, strip, is_decimal}
use switch_ops.Text.Dict.{Dict, lookup, insert}
use switch_ops.Text.Sets.{upper, distinct}
use switch_ops.Models.{InterfaceStatus}
use switch_ops.Parsers.Poe.{PoePort}
use switch_ops.Parsers.Errors.{InterfaceErrorCounters}
use switch_ops.Parsers.MacTable.{MacTableEntry}
use switch_ops.Registry.Names.{normalize_interface, short_interface}
use switch_ops.Registry.Actions.{sanitize_description}
use switch_ops.Operations.Catalogue.{OperationKind, needs_value}
use switch_ops.Operations.Config.{InterfaceConfig}
use switch_ops.Assurance.Model.{AssuranceInterfaceSnapshot}
use switch_ops.Assurance.Impact.{first_of, keep}

-- The canonical and the short name.
unfoldable pub canonical_and_short : Text → Result (Text × Text)
unfolding normalize_interface short_interface
canonical_and_short interface = do
  canonical ← normalize_interface interface
  short ← short_interface canonical
  ok (canonical, short)

-- `value or ""`
given : Option Text → Text
given none = []
given (some s) = s

-- `_safe_value` of this module: an operation without a value refuses one.
unfoldable pub plan_value : OperationKind → Option Text → Result (Option Text)
unfolding needs_value sanitize_description given
plan_value kind value =
    if needs_value kind
    then (do text ← sanitize_description (given value); ok (some text))
    else refuse (given value)
  where
    refuse : Text → Result (Option Text)
    refuse [] = ok none
    refuse (c ∷ s) = err (command_not_allowed unexpected_value)

-- interface_admin_state of topology.py
unfoldable pub admin_state : Text → Text
unfolding lower strip
admin_state status =
    let value = lower (strip status) in
    if text_eq value (codes "disabled")
    then codes "down"
    else if text_eq value []
    then codes "unknown"
    else codes "up"

unfoldable pub oper_state : Text → Text
unfolding lower strip
oper_state status =
    if text_eq (lower (strip status)) (codes "connected") then codes "up" else codes "down"

-- What the output of the device is read into.
pub record Readings : Type 0 where
  pub poe : Dict PoePort
  pub errors : Dict ℤ
  pub learned : Dict (List Text)

unfoldable pub poe_by_port : List PoePort → Dict PoePort → Dict PoePort
unfolding insert lower
poe_by_port [] d = d
poe_by_port (p ∷ rest) d = poe_by_port rest (insert (lower p.interface) p d)

unfoldable pub error_by_port : List InterfaceErrorCounters → Dict ℤ → Dict ℤ
unfolding insert lower
error_by_port [] d = d
error_by_port (e ∷ rest) d = error_by_port rest (insert (lower e.port) e.total d)

hexadecimal : Text → Text
unfolding is_decimal keep
hexadecimal s = keep (λ c. is_decimal c || (leb b'a' c && leb c b'f')) s

-- `_entity_key`: no hardware address leaves it.
entity_key : (Text → Text) → Text → Text
unfolding hexadecimal lower
entity_key digest mac = codes "learned-" ++ take 16 (digest (hexadecimal (lower mac)))

unfoldable pub list_or_empty : Option (List Text) → List Text
list_or_empty none = []
list_or_empty (some l) = l

unfoldable pub learned_by_port :
    (Text → Text) → List MacTableEntry → Dict (List Text) → Dict (List Text)
unfolding upper lower lookup insert entity_key list_or_empty
learned_by_port digest [] d = d
learned_by_port digest (e ∷ rest) d =
    let port = lower e.port in
    learned_by_port digest rest (
      if text_eq (upper e.port) (codes "CPU") || text_eq (lower e.vlan) (codes "all")
      then d
      else insert port (list_or_empty (lookup port d) ++ entity_key digest e.mac ∷ []) d)

-- The configuration of the target is used for the target only.
config_for : Bool → Option InterfaceConfig → Option InterfaceConfig
config_for is_target config = if is_target then config else none

-- `interface_snapshot` for a row of the interface table, with the name of the target.
unfoldable pub interface_snapshot :
    Text → Option InterfaceConfig → Readings → InterfaceStatus → Result AssuranceInterfaceSnapshot
unfolding canonical_and_short lookup lower admin_state oper_state config_for distinct list_or_empty
interface_snapshot target config readings item = do
  names ← canonical_and_short item.port
  let port = names.1
  let own = config_for (text_eq (lower port) (lower target)) config
  let poe = lookup (lower port) readings.poe
  ok (record {
    port = port;
    present = true;
    admin_state = admin_state item.status;
    oper_state = oper_state item.status;
    description = elim own [ none ↦ item.name | some c ↦ c.description ];
    vlan = item.vlan;
    speed = item.speed;
    duplex = item.duplex;
    poe_admin = elim own [
      | none ↦ elim poe [ none ↦ codes "unknown" | some p ↦ p.admin ]
      | some c ↦ c.poe_admin
    ];
    poe_oper = elim poe [ none ↦ codes "unknown" | some p ↦ p.oper ];
    error_total = elim (lookup (lower port) readings.errors) [ none ↦ pos 0 | some n ↦ n ];
    learned_mac_count = length (distinct (list_or_empty (lookup (lower port) readings.learned)));
  })

-- One row that has no name raises for all.
unfoldable pub interface_snapshots :
    Text
    → Option InterfaceConfig
    → Readings
    → List InterfaceStatus
    → Result (List AssuranceInterfaceSnapshot)
unfolding interface_snapshot
interface_snapshots target config readings [] = ok []
interface_snapshots target config readings (item ∷ rest) = do
  first ← interface_snapshot target config readings item
  others ← interface_snapshots target config readings rest
  ok (first ∷ others)

absent : Text → AssuranceInterfaceSnapshot
absent port = record {
  port = port;
  present = false;
  admin_state = codes "unknown";
  oper_state = codes "unknown";
  description = [];
  vlan = [];
  speed = [];
  duplex = [];
  poe_admin = codes "unknown";
  poe_oper = codes "unknown";
  error_total = pos 0;
  learned_mac_count = 0;
}

-- The row of the target, and those of the others.
unfoldable pub target_of : Text → List AssuranceInterfaceSnapshot → AssuranceInterfaceSnapshot
unfolding absent first_of lower
target_of port rows = elim (first_of (λ i. text_eq (lower i.port) (lower port)) rows) [
  | none ↦ absent port
  | some i ↦ i
]

unfoldable pub others_of : Text → List AssuranceInterfaceSnapshot → List AssuranceInterfaceSnapshot
unfolding keep lower
others_of port rows = keep (λ i. not (text_eq (lower i.port) (lower port))) rows
