-- ===== src/Assurance/Preflight.antt =====
-- `_preflight`: the checks of a plan against a snapshot, the policy and the lock, and the outcome.
pub mod Verdict
use switch_ops.Prelude.{
  Bool, true, false, ◌&&◌, ◌||◌, not, Option, none, some, List, [], ◌∷◌, ◌++◌, any, take, length,
  if◌then◌else◌, Result, ok, err,
}
use switch_ops.Text.{Text, codes, text_eq, lower}
use switch_ops.Text.Sets.{has}
use switch_ops.Policy.Model.{Stored, PolicyState, operable}
use switch_ops.Policy.Store.{given, device_key, state_for, controlled_writes_enabled}
use switch_ops.Operations.Lock
use switch_ops.Operations.Lock.{WriteLock}
use switch_ops.Operations.Catalogue.{OperationKind, admin_down, poe_never}
use switch_ops.Assurance.Model.{
  CheckStatus, passes, warns, informs, blocks, ChangePlan, PreflightCheck, operation_allowlisted,
  device_target, device_live, interface_exists, interface_policy, controlled_writes, session_unlock,
  rollback_representable, evidence_freshness, attached_endpoints, learned_behind, control_path,
  topology_uncertainty, running_startup, ControlPath, clear, possible, confirmed, Limitation,
  not_current, no_identity_evidence, no_attachment, AssuranceSnapshot, Outcome, outcome_ready,
  outcome_blocked, ChangePreflight,
}

-- kind in {"admin_down", "poe_never"}
unfoldable pub is_disruptive : OperationKind → Bool
is_disruptive admin_down = true
is_disruptive poe_never = true
is_disruptive _ = false

unfoldable pub is_operable : PolicyState → Bool
is_operable operable = true
is_operable _ = false

-- `f"device-{device_key(str(host))[:16]}" if host else None`
unfoldable pub current_device_id : (Text → Text) → Option Text → Option Text
unfolding device_key
current_device_id digest host = elim (given host) [
  | none ↦ none
  | some h ↦ some (codes "device-" ++ take 16 (device_key digest h))
]

equals : Option Text → Text → Bool
equals none t = false
equals (some s) t = text_eq s t

unfoldable pub device_matches : (Text → Text) → Option Text → ChangePlan → Bool
unfolding current_device_id equals
device_matches digest host plan = equals (current_device_id digest host) plan.device_id

check : Bool → CheckStatus → CheckStatus → CheckStatus
check test good bad = if test then good else bad

unfoldable pub is_live : AssuranceSnapshot → Bool
unfolding lower
is_live s = text_eq (lower s.health.connection_state) (codes "live")

-- The local control or gateway path runs through the target of a disruptive operation.
unfoldable pub confirmed_path : OperationKind → AssuranceSnapshot → Bool
unfolding is_disruptive has
confirmed_path kind s =
    is_disruptive kind
    && (has (codes "gateway-path") s.topology.relationships || s.topology.local_host_correlated)

some_of : List Text → Bool
some_of [] = false
some_of (x ∷ xs) = true

possible_path : AssuranceSnapshot → Bool
unfolding some_of
possible_path s =
    text_eq s.topology.target_role (codes "uplink") || some_of s.topology.learned_behind_entity_ids

is_current : AssuranceSnapshot → Bool
is_current s = text_eq s.evidence.freshness (codes "current")

is_uncertain : Option Text → Bool
is_uncertain none = false
is_uncertain (some s) = text_eq s (codes "uncertain")

control_check : OperationKind → AssuranceSnapshot → CheckStatus
unfolding confirmed_path possible_path is_disruptive
control_check kind s =
    if confirmed_path kind s
    then blocks
    else if is_disruptive kind && possible_path s
    then warns
    else passes

control_path_of : OperationKind → AssuranceSnapshot → ControlPath
unfolding confirmed_path possible_path
control_path_of kind s =
    if confirmed_path kind s then confirmed else if possible_path s then possible else clear

limitations : AssuranceSnapshot → List Limitation
unfolding some_of is_current
limitations s =
    let attached = some_of s.topology.attached_entity_ids in
    (if is_current s then [] else not_current ∷ [])
    ++ (if attached && not (some_of s.evidence.evidence_ids) then no_identity_evidence ∷ [] else [])
    ++ (if attached then [] else no_attachment ∷ [])

-- The checks, in the order of the code; `operable` is the finding of the policy, `capability` and
-- `unlocked` the settings of the session.
unfoldable pub checks_of :
    Bool → Bool → Bool → Bool → OperationKind → AssuranceSnapshot → List PreflightCheck
unfolding check is_live control_check is_current some_of is_uncertain
checks_of matches may_operate capability unlocked kind s =
    record { code = operation_allowlisted; status = passes; evidence = [] }
    ∷ record { code = device_target; status = check matches passes blocks; evidence = [] }
    ∷ record { code = device_live; status = check (is_live s) passes blocks; evidence = [] }
    ∷ record {
      code = interface_exists;
      status = check s.target.present passes blocks;
      evidence = [];
    }
    ∷ record { code = interface_policy; status = check may_operate passes blocks; evidence = [] }
    ∷ record { code = controlled_writes; status = check capability passes blocks; evidence = [] }
    ∷ record { code = session_unlock; status = check unlocked passes informs; evidence = [] }
    ∷ record {
      code = rollback_representable;
      status = check s.configuration.rollback_representable passes blocks;
      evidence = [];
    }
    ∷ record {
      code = evidence_freshness;
      status = check (is_current s) passes warns;
      evidence = s.evidence.evidence_ids;
    }
    ∷ record {
      code = attached_endpoints;
      status = informs;
      evidence = s.topology.attached_entity_ids;
    }
    ∷ record {
      code = learned_behind;
      status = check (some_of s.topology.learned_behind_entity_ids) warns passes;
      evidence = s.topology.learned_behind_entity_ids;
    }
    ∷ record {
      code = control_path;
      status = control_check kind s;
      evidence = s.evidence.evidence_ids;
    }
    ∷ record {
      code = topology_uncertainty;
      status = check (is_uncertain s.topology.reconciliation_state) warns passes;
      evidence = [];
    }
    ∷ record {
      code = running_startup;
      status = check s.configuration.running_differs_from_startup warns passes;
      evidence = [];
    }
    ∷ []

unfoldable pub is_block : CheckStatus → Bool
is_block blocks = true
is_block _ = false

unfoldable pub outcome_of : List PreflightCheck → Outcome
unfolding is_block
outcome_of checks = if any (λ c. is_block c.status) checks then outcome_blocked else outcome_ready

module _ (digest : Text → Text) (host : Option Text) (stored : Stored) (lock : WriteLock) where
  evaluate : ChangePlan → AssuranceSnapshot → PolicyState → ChangePreflight
  unfolding checks_of outcome_of device_matches is_operable controlled_writes_enabled Lock.unlocked
      control_path_of limitations
  evaluate plan s state =
      let enabled = controlled_writes_enabled stored in
      let checks =
        checks_of (device_matches digest host plan) (is_operable state) enabled
          (Lock.unlocked enabled lock) plan.step.kind s in
      record {
        outcome = outcome_of checks;
        checks = checks;
        impact = record {
          target_interface = plan.target_interface;
          attached_endpoints = length s.topology.attached_entity_ids;
          learned_behind = length s.topology.learned_behind_entity_ids;
          expected_relationship = s.topology.expected_relationship;
          control_path = control_path_of plan.step.kind s;
          confidence_limitations = limitations s;
        };
        snapshot = some s;
      }

  -- The policy store may refuse the name of the interface.
  evaluate_if : ChangePlan → AssuranceSnapshot → Result PolicyState → Result ChangePreflight
  unfolding evaluate
  evaluate_if plan s (ok state) = ok (evaluate plan s state)
  evaluate_if plan s (err e) = err e

  unfoldable pub run_checks : ChangePlan → AssuranceSnapshot → Result ChangePreflight
  unfolding state_for evaluate_if
  run_checks plan s = evaluate_if plan s (state_for digest host plan.target_interface stored)
