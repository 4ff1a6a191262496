-- ===== src/Assurance/Service.antt =====
-- `ChangeAssuranceService`: what a plan declares, and the decisions on the status of its session.
use switch_ops.Prelude.{
  Bool, true, false, Option, none, some, List, [], ◌∷◌, ◌>>=◌, if◌then◌else◌, Result, ok,
}
use switch_ops.Text.{Text, codes}
use switch_ops.Operations.Catalogue.{
  OperationKind, admin_up, admin_down, poe_auto, poe_never, set_description,
}
use switch_ops.Operations.Exec.{OperationStatus, Stage, verify, rollback}
use switch_ops.Operations.Reads.{OperationResult}
use switch_ops.Assurance.Model
use switch_ops.Assurance.Model.{
  Status, planned, preflight, ready, executing, verifying, rolling_back, succeeded,
  succeeded_with_warnings, indeterminate, blocks, Category, interface_effect, topology_effect,
  ExpectedChangeEffect, ChangePlan, unknown, no_snapshot, Outcome, outcome_ready, outcome_blocked,
  ChangePreflight, met, ChangeComparison, Detail, plan_created, preflight_passed, preflight_blocked,
  rollback_observed, not_proven, not_the_same, with_warnings, as_declared, ChangeSession,
}
use switch_ops.Assurance.Snapshot.{canonical_and_short, plan_value}
use switch_ops.Assurance.Desk.{settle}

effect : Category → Text → Text → Bool → ExpectedChangeEffect
effect category field expectation required = record {
  category = category;
  field = field;
  expectation = expectation;
  required = required;
}

-- `_intent_for`: the effects that a change declares.
unfoldable pub effects_of : OperationKind → Option Text → List ExpectedChangeEffect
unfolding effect
effects_of admin_down value =
    effect interface_effect (codes "adminState") (codes "down") true
    ∷ effect interface_effect (codes "operState") (codes "may become down") false
    ∷ effect topology_effect (codes "target attachment") (codes "may disappear or age") false
    ∷ effect topology_effect (codes "learned addresses") (codes "may disappear or age") false
    ∷ []
effects_of admin_up value =
    effect interface_effect (codes "adminState") (codes "up") true
    ∷ effect interface_effect (codes "operState") (codes "may remain down until a link exists")
        false
    ∷ effect topology_effect (codes "target attachment")
        (codes "may appear if a device is connected") false
    ∷ []
effects_of poe_auto value =
    effect interface_effect (codes "poeAdmin") (codes "auto") true
    ∷ effect interface_effect (codes "poeOper") (codes "may begin supplying power") false
    ∷ effect topology_effect (codes "target attachment")
        (codes "may appear after a powered device starts") false
    ∷ []
effects_of poe_never value =
    effect interface_effect (codes "poeAdmin") (codes "never") true
    ∷ effect interface_effect (codes "poeOper") (codes "may stop supplying power") false
    ∷ effect topology_effect (codes "target attachment")
        (codes "may disappear if the endpoint depends on PoE") false
    ∷ []
effects_of set_description value =
    effect interface_effect (codes "description") (elim value [ none ↦ [] | some v ↦ v ]) true
    ∷ effect topology_effect (codes "expected intent")
        (codes "may be reclassified after discovery refresh") false
    ∷ []

-- The session of a new plan; the two identifiers are fresh.
unfoldable pub new_session :
    Text → Text → Text → OperationKind → Text → Option Text → Result ChangeSession
unfolding canonical_and_short plan_value effects_of
new_session session_id plan_id device_id kind interface value = do
  names ← canonical_and_short interface
  safe ← plan_value kind value
  ok (record {
    id = session_id;
    plan = record {
      id = plan_id;
      device_id = device_id;
      target_interface = names.1;
      step = record { interface = names.1; kind = kind; value = safe };
      expected_postconditions = effects_of kind safe;
    };
    status = planned;
    preflight = none;
    before_snapshot = none;
    after_snapshot = none;
    comparison = none;
    operation_result = none;
    operation_stages = [];
    outcome_detail = plan_created;
  })

-- A preflight without a snapshot: one check that blocks.
unfoldable pub no_evidence : Model.Code → ChangePlan → ChangePreflight
no_evidence code plan = record {
  outcome = outcome_blocked;
  checks = record { code = code; status = blocks; evidence = [] } ∷ [];
  impact = record {
    target_interface = plan.target_interface;
    attached_endpoints = 0;
    learned_behind = 0;
    expected_relationship = none;
    control_path = unknown;
    confidence_limitations = no_snapshot ∷ [];
  };
  snapshot = none;
}

-- status in {"executing", "verifying", "rolling_back"}
unfoldable pub is_at_work : Status → Bool
is_at_work executing = true
is_at_work verifying = true
is_at_work Model.rolling_back = true
is_at_work _ = false

unfoldable pub is_complete : Status → Bool
is_complete Model.rolled_back = true
is_complete succeeded = true
is_complete succeeded_with_warnings = true
is_complete indeterminate = true
is_complete _ = false

unfoldable pub is_ready : Status → Bool
is_ready ready = true
is_ready _ = false

-- status in {"planned", "preflight", "ready"}
unfoldable pub is_open : Status → Bool
is_open planned = true
is_open preflight = true
is_open ready = true
is_open _ = false

unfoldable pub decide_by : Outcome → ChangeSession → ChangeSession
unfolding settle
decide_by outcome_ready s = settle ready preflight_passed s
decide_by outcome_blocked s = settle Model.blocked preflight_blocked s

-- What the preflight that was made says of the session.
unfoldable pub decide : ChangePreflight → ChangeSession → ChangeSession
unfolding decide_by
decide p s = decide_by p.outcome (record s { preflight = some p })

-- The status while the last stage of the operation runs.
unfoldable pub progress : List Stage → Status → Status
progress [] status = status
progress (stage ∷ []) status = elim stage.name [
  | verify ↦ verifying
  | rollback ↦ rolling_back
  | _ ↦ executing
]
progress (stage ∷ next ∷ rest) status = progress (next ∷ rest) status

-- `result.rolled_back`, which may be missing
is_true : Option Bool → Bool
is_true none = false
is_true (some b) = b

-- The final status and its message.
unfoldable pub verdict : OperationResult → ChangeComparison → Status × Detail
unfolding is_true
verdict result comparison = elim result.outcome.status [
  | OperationStatus.rolled_back ↦
      if is_true result.outcome.rolled_back
      then (Model.rolled_back, rollback_observed)
      else (indeterminate, not_proven)
  | OperationStatus.success ↦ elim comparison.direct_postcondition [
    | met ↦ elim comparison.warnings [
      | [] ↦ (succeeded, as_declared)
      | w ∷ ws ↦ (succeeded_with_warnings, with_warnings)
    ]
    | _ ↦ (indeterminate, not_the_same)
  ]
  | _ ↦ (indeterminate, not_proven)
]
