-- ===== src/Assurance/Model.antt =====
-- change_models.py: the contracts of a change session. The times and the labels are left out, and
-- of a message to the operator the choice is kept.
use switch_ops.Prelude.{ℕ, Bool, Option, List, ℤ}
use switch_ops.Text.{Text}
use switch_ops.Operations.Catalogue.{OperationKind}
use switch_ops.Operations.Exec.{Stage}
use switch_ops.Operations.Reads.{OperationResult}

-- `ChangeSessionStatus`
pub data Status : Type 0 where
  planned preflight blocked ready executing verifying rolling_back : Status
  rolled_back succeeded succeeded_with_warnings indeterminate : Status

pub data CheckStatus : Type 0 where
  passes warns informs blocks : CheckStatus

pub record ChangeStep : Type 0 where
  pub interface : Text
  pub kind : OperationKind
  pub value : Option Text

pub data Category : Type 0 where
  configuration_effect interface_effect topology_effect health_effect : Category

pub record ExpectedChangeEffect : Type 0 where
  pub category : Category
  pub field : Text
  pub expectation : Text
  pub required : Bool

-- `ChangePlan`; the one step that it may have is a field.
pub record ChangePlan : Type 0 where
  pub id : Text
  pub device_id : Text
  pub target_interface : Text
  pub step : ChangeStep
  pub expected_postconditions : List ExpectedChangeEffect

-- The codes of the checks.
pub data Code : Type 0 where
  operation_allowlisted device_target device_live interface_exists interface_policy : Code
  controlled_writes session_unlock rollback_representable evidence_freshness : Code
  attached_endpoints learned_behind control_path topology_uncertainty running_startup : Code
  snapshot_capture : Code

pub record PreflightCheck : Type 0 where
  pub code : Code
  pub status : CheckStatus
  pub evidence : List Text

pub data ControlPath : Type 0 where
  clear possible confirmed unknown : ControlPath

pub data Limitation : Type 0 where
  not_current no_identity_evidence no_attachment no_snapshot : Limitation

pub record BlastRadius : Type 0 where
  pub target_interface : Text
  pub attached_endpoints : ℕ
  pub learned_behind : ℕ
  pub expected_relationship : Option Text
  pub control_path : ControlPath
  pub confidence_limitations : List Limitation

pub record AssuranceInterfaceSnapshot : Type 0 where
  pub port : Text
  pub present : Bool
  pub admin_state : Text
  pub oper_state : Text
  pub description : Text
  pub vlan : Text
  pub speed : Text
  pub duplex : Text
  pub poe_admin : Text
  pub poe_oper : Text
  pub error_total : ℤ
  pub learned_mac_count : ℕ

pub record AssuranceConfigurationSnapshot : Type 0 where
  pub running_fingerprint : Text
  pub startup_fingerprint : Text
  pub running_differs_from_startup : Bool
  pub rollback_representable : Bool

pub record AssuranceTopologySnapshot : Type 0 where
  pub relationships : List Text
  pub attached_entity_ids : List Text
  pub learned_behind_entity_ids : List Text
  pub expected_relationship : Option Text
  pub reconciliation_state : Option Text
  pub target_role : Text
  pub local_host_correlated : Bool
  pub other_topology_fingerprint : Text

pub record AssuranceHealthSnapshot : Type 0 where
  pub connection_state : Text
  pub device_health : Text
  pub target_health : Text
  pub target_error_total : ℤ

pub record AssuranceEvidenceSnapshot : Type 0 where
  pub freshness : Text
  pub evidence_ids : List Text

pub record AssuranceSnapshot : Type 0 where
  pub device_id : Text
  pub target_interface : Text
  pub configuration : AssuranceConfigurationSnapshot
  pub target : AssuranceInterfaceSnapshot
  pub other_interfaces : List AssuranceInterfaceSnapshot
  pub topology : AssuranceTopologySnapshot
  pub health : AssuranceHealthSnapshot
  pub evidence : AssuranceEvidenceSnapshot

pub data Outcome : Type 0 where
  outcome_ready outcome_blocked : Outcome

pub record ChangePreflight : Type 0 where
  pub outcome : Outcome
  pub checks : List PreflightCheck
  pub impact : BlastRadius
  pub snapshot : Option AssuranceSnapshot

pub data Scope : Type 0 where
  target_scope unrelated_scope configuration_scope topology_scope health_scope : Scope

pub data Assessment : Type 0 where
  expected warning info : Assessment

-- What a difference compares.
pub data Value : Type 0 where
  text : Text → Value
  number : ℤ → Value
  flag : Bool → Value
  texts : List Text → Value

pub record ChangeDifference : Type 0 where
  pub scope : Scope
  pub field : Text
  pub before : Value
  pub after : Value
  pub assessment : Assessment
  pub detail : Text
  pub interface : Option Text

pub data Postcondition : Type 0 where
  met not_met postcondition_unknown : Postcondition

pub record ChangeComparison : Type 0 where
  pub direct_postcondition : Postcondition
  pub differences : List ChangeDifference
  pub warnings : List Text

-- The messages of a session, `outcome_detail`.
pub data Detail : Type 0 where
  plan_created collecting preflight_passed preflight_blocked capture_failed unreachable : Detail
  capturing_before before_failed conditions_changed no_conclusive_result capturing_after : Detail
  after_failed rollback_observed not_proven not_the_same with_warnings as_declared : Detail
  write_gate_closed interrupted : Detail

pub record ChangeSession : Type 0 where
  pub id : Text
  pub plan : ChangePlan
  pub status : Status
  pub preflight : Option ChangePreflight
  pub before_snapshot : Option AssuranceSnapshot
  pub after_snapshot : Option AssuranceSnapshot
  pub comparison : Option ChangeComparison
  pub operation_result : Option OperationResult
  pub operation_stages : List Stage
  pub outcome_detail : Detail
