-- ===== src/Assurance/Compare.antt =====
-- `compare_snapshots`: the differences between the states before and after, the warnings among them,
-- and whether the declared postcondition is observed.
pub mod Quiet
use switch_ops.Prelude.{
  Bool, true, false, ◌&&◌, not, Option, none, some, List, [], ◌∷◌, ◌++◌, map, if◌then◌else◌, pos,
  eqb_ℤ, ltb_ℤ,
}
use switch_ops.Text.{Text, codes, text_eq, lower}
use switch_ops.Text.Dict.{Dict, lookup, insert}
use switch_ops.Text.Sets.{sorted_set, distinct}
use switch_ops.Operations.Catalogue.{
  OperationKind, admin_up, admin_down, poe_auto, poe_never, set_description,
}
use switch_ops.Operations.Reads.{OperationResult}
use switch_ops.Assurance.Model.{
  ChangePlan, ChangeStep, AssuranceInterfaceSnapshot, AssuranceSnapshot, Scope, target_scope,
  unrelated_scope, configuration_scope, topology_scope, health_scope, Assessment, expected, warning,
  info, Value, text, number, flag, texts, ChangeDifference, Postcondition, met, not_met,
  postcondition_unknown, ChangeComparison,
}

-- The fields that are compared, `labels`.
pub data Field : Type 0 where
  admin_state oper_state description vlan speed duplex poe_admin poe_oper : Field
  error_total learned_mac_count : Field

abbrev fields : List Field
fields =
    admin_state ∷ oper_state ∷ description ∷ vlan ∷ speed ∷ duplex ∷ poe_admin ∷ poe_oper
    ∷ error_total ∷ learned_mac_count ∷ []

field_name : Field → Text
field_name admin_state = codes "admin_state"
field_name oper_state = codes "oper_state"
field_name description = codes "description"
field_name vlan = codes "vlan"
field_name speed = codes "speed"
field_name duplex = codes "duplex"
field_name poe_admin = codes "poe_admin"
field_name poe_oper = codes "poe_oper"
field_name error_total = codes "error_total"
field_name learned_mac_count = codes "learned_mac_count"

label : Field → Text
label admin_state = codes "administrative state"
label oper_state = codes "link state"
label description = codes "description"
label vlan = codes "VLAN"
label speed = codes "speed"
label duplex = codes "duplex"
label poe_admin = codes "PoE policy"
label poe_oper = codes "PoE operational state"
label error_total = codes "error counter"
label learned_mac_count = codes "learned-address count"

-- getattr(interface, field)
unfoldable pub value_of : Field → AssuranceInterfaceSnapshot → Value
value_of admin_state i = text i.admin_state
value_of oper_state i = text i.oper_state
value_of description i = text i.description
value_of vlan i = text i.vlan
value_of speed i = text i.speed
value_of duplex i = text i.duplex
value_of poe_admin i = text i.poe_admin
value_of poe_oper i = text i.poe_oper
value_of error_total i = number i.error_total
value_of learned_mac_count i = number (pos i.learned_mac_count)

-- `field in allowed_target`
unfoldable pub is_allowed : OperationKind → Field → Bool
is_allowed set_description description = true
is_allowed set_description _ = false
is_allowed admin_up admin_state = true
is_allowed admin_up oper_state = true
is_allowed admin_up learned_mac_count = true
is_allowed admin_up _ = false
is_allowed admin_down admin_state = true
is_allowed admin_down oper_state = true
is_allowed admin_down learned_mac_count = true
is_allowed admin_down _ = false
is_allowed poe_auto poe_admin = true
is_allowed poe_auto poe_oper = true
is_allowed poe_auto oper_state = true
is_allowed poe_auto learned_mac_count = true
is_allowed poe_auto _ = false
is_allowed poe_never poe_admin = true
is_allowed poe_never poe_oper = true
is_allowed poe_never oper_state = true
is_allowed poe_never learned_mac_count = true
is_allowed poe_never _ = false

text_lists_eq : List Text → List Text → Bool
text_lists_eq [] [] = true
text_lists_eq [] (t ∷ ts) = false
text_lists_eq (s ∷ ss) [] = false
text_lists_eq (s ∷ ss) (t ∷ ts) = text_eq s t && text_lists_eq ss ts

flags_eq : Bool → Bool → Bool
flags_eq true b = b
flags_eq false b = not b

-- old == new
unfoldable pub value_eq : Value → Value → Bool
unfolding text_lists_eq flags_eq
value_eq (text s) (text t) = text_eq s t
value_eq (number a) (number b) = eqb_ℤ a b
value_eq (flag a) (flag b) = flags_eq a b
value_eq (texts ss) (texts ts) = text_lists_eq ss ts
value_eq _ _ = false

pub record Findings : Type 0 where
  pub differences : List ChangeDifference
  pub warnings : List Text

warn_if : Assessment → Text → List Text
warn_if warning detail = detail ∷ []
warn_if _ detail = []

-- The inner function `diff`, for a difference that is kept if its values differ.
diff : Findings → ChangeDifference → Findings
unfolding value_eq warn_if
diff found d = if value_eq d.before d.after then found else record {
  differences = found.differences ++ d ∷ [];
  warnings = found.warnings ++ warn_if d.assessment d.detail;
}

-- The calls of `diff` in their order.
unfoldable pub diffs : Findings → List ChangeDifference → Findings
unfolding diff
diffs found [] = found
diffs found (d ∷ ds) = diffs (diff found d) ds

unfoldable pub direct_of : ChangeStep → AssuranceInterfaceSnapshot → Postcondition
unfolding lower
direct_of step target = if not target.present then postcondition_unknown else elim step.kind [
  | admin_down ↦ if text_eq target.admin_state (codes "down") then met else not_met
  | admin_up ↦ if text_eq target.admin_state (codes "up") then met else not_met
  | poe_auto ↦ if text_eq (lower target.poe_admin) (codes "auto") then met else not_met
  | poe_never ↦ if text_eq (lower target.poe_admin) (codes "never") then met else not_met
  | set_description ↦
      if text_eq target.description (elim step.value [ none ↦ [] | some v ↦ v ])
      then met
      else not_met
]

target_difference :
    ChangePlan → AssuranceInterfaceSnapshot → AssuranceInterfaceSnapshot → Field → ChangeDifference
unfolding field_name value_of is_allowed label
target_difference plan before after field = record {
  scope = target_scope;
  field = field_name field;
  before = value_of field before;
  after = value_of field after;
  assessment = if is_allowed plan.step.kind field then expected else warning;
  detail =
      if is_allowed plan.step.kind field
      then codes "The target "
        ++ label field
        ++ codes " changed as an expected consequence of the plan."
      else codes "The target "
        ++ label field
        ++ codes " changed outside the plan's declared effects.";
  interface = some plan.target_interface;
}

-- {item.port: item for item in ...}
unfoldable pub by_port :
    List AssuranceInterfaceSnapshot
    → Dict AssuranceInterfaceSnapshot
    → Dict AssuranceInterfaceSnapshot
unfolding insert
by_port [] d = d
by_port (i ∷ rest) d = by_port rest (insert i.port i d)

unfoldable pub keys : Dict AssuranceInterfaceSnapshot → List Text
keys [] = []
keys ((k, i) ∷ d) = k ∷ keys d

unrelated_difference :
    Text → AssuranceInterfaceSnapshot → AssuranceInterfaceSnapshot → Field → ChangeDifference
unfolding field_name value_of label
unrelated_difference port before after field = record {
  scope = unrelated_scope;
  field = field_name field;
  before = value_of field before;
  after = value_of field after;
  assessment = warning;
  detail =
      codes "Unrelated interface "
      ++ port
      ++ codes " changed "
      ++ label field
      ++ codes
          " during the assurance window. Temporal proximity does not prove the requested change caused it.";
  interface = some port;
}

presence : Text → Bool → Bool → ChangeDifference
presence port before after = record {
  scope = unrelated_scope;
  field = codes "presence";
  before = flag before;
  after = flag after;
  assessment = warning;
  detail =
      codes "Unrelated interface "
      ++ port
      ++ codes " appeared or disappeared during the assurance window.";
  interface = some port;
}

-- One round of the loop over the ports.
port_differences :
    Text
    → Option AssuranceInterfaceSnapshot
    → Option AssuranceInterfaceSnapshot
    → List ChangeDifference
unfolding presence unrelated_difference
port_differences port none none = presence port false false ∷ []
port_differences port none (some new) = presence port false true ∷ []
port_differences port (some old) none = presence port true false ∷ []
port_differences port (some old) (some new) = map (unrelated_difference port old new) fields

ports_differences :
    Dict AssuranceInterfaceSnapshot
    → Dict AssuranceInterfaceSnapshot
    → List Text
    → List ChangeDifference
unfolding lookup port_differences
ports_differences old new [] = []
ports_differences old new (port ∷ rest) =
    port_differences port (lookup port old) (lookup port new) ++ ports_differences old new rest

-- kind in {"admin_up", "admin_down", "poe_auto", "poe_never"}
is_port_operation : OperationKind → Bool
is_port_operation set_description = false
is_port_operation _ = true

module _ (plan : ChangePlan) (before after : AssuranceSnapshot) where
  whole : Scope → Text → Value → Value → Assessment → Text → Option Text → ChangeDifference
  whole scope field old new assessment detail interface = record {
    scope = scope;
    field = field;
    before = old;
    after = new;
    assessment = assessment;
    detail = detail;
    interface = interface;
  }

  configuration_differences : Bool → List ChangeDifference
  unfolding whole
  configuration_differences requires_save =
      whole configuration_scope (codes "runningFingerprint")
        (text before.configuration.running_fingerprint)
        (text after.configuration.running_fingerprint) (if requires_save then expected else info)
        (if requires_save
          then codes "The running configuration fingerprint changed."
          else codes
              "The running configuration fingerprint changed even though no change was required.")
        none
      ∷ whole configuration_scope (codes "startupFingerprint")
          (text before.configuration.startup_fingerprint)
          (text after.configuration.startup_fingerprint) warning
          (codes "The startup configuration changed without an explicit save action.") none
      ∷ []

  topology_differences : List ChangeDifference
  unfolding whole is_port_operation sorted_set
  topology_differences =
      let allowed = is_port_operation plan.step.kind in
      whole topology_scope (codes "targetAttachments")
        (texts (sorted_set before.topology.attached_entity_ids))
        (texts (sorted_set after.topology.attached_entity_ids))
        (if allowed then expected else warning)
        (if allowed
          then codes
              "Target attachment evidence changed consistently with a potentially disruptive port operation."
          else codes "Target attachment evidence changed during a description-only operation.")
        (some plan.target_interface)
      ∷ whole topology_scope (codes "learnedBehindEntities")
          (texts before.topology.learned_behind_entity_ids)
          (texts after.topology.learned_behind_entity_ids) (if allowed then expected else warning)
          (if allowed
            then codes
                "Learned-behind evidence changed consistently with a potentially disruptive port operation."
            else codes "Learned-behind evidence changed during a description-only operation.")
          (some plan.target_interface)
      ∷ whole topology_scope (codes "otherTopologyFingerprint")
          (text before.topology.other_topology_fingerprint)
          (text after.topology.other_topology_fingerprint) warning
          (codes
            "Topology away from the target changed during the assurance window. SwitchOps records correlation, not causation.")
          none
      ∷ []

  health_differences : List ChangeDifference
  unfolding whole
  health_differences =
      whole health_scope (codes "deviceHealth") (text before.health.device_health)
        (text after.health.device_health) warning
        (codes "The device health classification changed during the assurance window.") none
      ∷ whole health_scope (codes "targetHealth") (text before.health.target_health)
          (text after.health.target_health) warning
          (codes "The target interface health classification changed during the assurance window.")
          (some plan.target_interface)
      ∷ whole health_scope (codes "connectionState") (text before.health.connection_state)
          (text after.health.connection_state) warning
          (codes "The device connection classification changed during the assurance window.") none
      ∷ []

  -- Told of an increase only.
  error_differences : List ChangeDifference
  unfolding whole
  error_differences =
      if ltb_ℤ before.target.error_total after.target.error_total
      then whole health_scope (codes "targetErrorTotal") (number before.target.error_total)
          (number after.target.error_total) warning
          (codes "The target cumulative error counter increased during the assurance window.")
          (some plan.target_interface)
        ∷ []
      else []

  unrelated_differences : List ChangeDifference
  unfolding by_port keys sorted_set ports_differences
  unrelated_differences =
      let old = by_port before.other_interfaces [] in
      let new = by_port after.other_interfaces [] in
      ports_differences old new (sorted_set (keys old ++ keys new))

  -- All that is told of the two states.
  told : Bool → List ChangeDifference
  unfolding target_difference unrelated_differences configuration_differences topology_differences
      health_differences error_differences
  told requires_save =
      map (target_difference plan before.target after.target) fields
      ++ unrelated_differences
      ++ configuration_differences requires_save
      ++ topology_differences
      ++ health_differences
      ++ error_differences

  unfoldable pub compare_snapshots : OperationResult → ChangeComparison
  unfolding told diffs direct_of distinct
  compare_snapshots operation =
      let found =
        diffs (record { differences = []; warnings = [] }) (told operation.outcome.requires_save) in
      record {
        direct_postcondition = direct_of plan.step after.target;
        differences = found.differences;
        warnings = distinct found.warnings;
      }
