-- ===== src/Operations/Pipeline.antt =====
-- `run_operation`: the gates, the precheck, and the way through the steps.
pub mod Readings
pub mod Silent
pub mod Story
use switch_ops.Prelude.{Bool, false, Option, none, some, List, [], if◌then◌else◌, Result, ok, err}
use switch_ops.Text.{Text, codes}
use switch_ops.Models.{InterfaceStatus}
use switch_ops.Policy.Model.{Stored}
use switch_ops.Policy.Store.{
  assert_operable, operation_guard as policy_guard, controlled_writes_enabled,
}
use switch_ops.Operations.Lock
use switch_ops.Operations.Lock.{WriteLock}
use switch_ops.Operations.Config.{InterfaceConfig, interface_config}
use switch_ops.Operations.Catalogue.{OperationKind, is_poe, rollback_commands, postcondition_met}
use switch_ops.Operations.Exec.{
  success, rolled_back, Client, precheck, backup, execute, verify, passed, failed_stage, Run, Exec,
  ◌>>=◌, pure, run_and_audit, begin, finish, skip,
}
use switch_ops.Operations.Reads.{
  OperationResult, Plan, refused, before_state, is_switchops_error, safe_value, result,
  read_interface, poe_if,
}
use switch_ops.Operations.Change.{run_backup}

-- A plan needs the block of the interface and commands that can restore it.
with_config :
    OperationKind
    → Text
    → Text
    → Option Text
    → Option Text
    → InterfaceStatus
    → Text
    → Option InterfaceConfig
    → Option Plan
unfolding rollback_commands
with_config kind interface canonical value poe before running none = none
with_config kind interface canonical value poe before running (some config) =
    with_rollback (rollback_commands kind canonical config)
  where
    with_rollback : Option (List Text) → Option Plan
    with_rollback none = none
    with_rollback (some commands) = some (record {
      kind = kind;
      interface = interface;
      canonical = canonical;
      value = value;
      before_interface = before;
      before_poe = poe;
      running_config = running;
      before_config = config;
      rollback_commands = commands;
    })

module _ {S : Type 0} (c : Client S) where
  -- The intended state already exists: nothing is sent.
  already_satisfied : Plan → Run S → OperationResult × Run S
  unfolding begin finish skip result before_state
  already_satisfied p r =
      result c p.kind p.interface
        (record {
          status = success;
          before = some (before_state p);
          after = some (before_state p);
          commands = [];
          rolled_back = none;
          backup_path = none;
          requires_save = false;
        })
        (finish passed (begin verify (skip execute (skip backup r))))

  pub run_plan : Bool → Plan → Run S → OperationResult × Run S
  unfolding finish postcondition_met already_satisfied run_backup
  run_plan is_fresh p r =
      let r1 = finish passed r in
      let satisfied = already_satisfied p r1 in
      let changed = run_backup c is_fresh p r1 in
      if postcondition_met p.kind (some p.before_interface) p.before_poe p.value
        (some p.before_config)
      then satisfied
      else changed

  with_row :
      OperationKind
      → Text
      → Text
      → Option Text
      → Option Text
      → Option InterfaceStatus
      → Exec S (Option Plan)
  unfolding ◌>>=◌ pure run_and_audit interface_config with_config
  with_row kind interface canonical value poe none = pure none
  with_row kind interface canonical value poe (some before) = do
    running ← run_and_audit c (codes "show_running_config")
    pure (
        with_config kind interface canonical value poe before running
          (interface_config running canonical))

  -- What the precheck reads: the row of the interface, its policy for power, the configuration.
  -- `none` is a reason to refuse the change.
  pub capture : OperationKind → Text → Text → Option Text → Exec S (Option Plan)
  unfolding ◌>>=◌ read_interface poe_if with_row
  capture kind interface canonical value = do
    found ← read_interface c canonical
    poe ← poe_if c (is_poe kind) canonical
    with_row kind interface canonical value poe found

  refuse : OperationKind → Text → Run S → OperationResult × Run S
  unfolding finish result
  refuse kind interface r = result c kind interface refused (finish failed_stage r)

  -- Every failure of the capture, an exception too, refuses the change.
  after_capture :
      OperationKind → Text → Bool → Result (Option Plan) → Run S → OperationResult × Run S
  unfolding refuse run_plan
  after_capture kind interface is_fresh (ok (some p)) r = run_plan is_fresh p r
  after_capture kind interface is_fresh (ok none) r = refuse kind interface r
  after_capture kind interface is_fresh (err e) r = refuse kind interface r

  with_value :
      OperationKind → Text → Text → Bool → Result (Option Text) → Run S → OperationResult × Run S
  unfolding refuse capture after_capture
  with_value kind interface canonical is_fresh (err e) r = refuse kind interface r
  with_value kind interface canonical is_fresh (ok value) r =
      let (answer, r1) = capture kind interface canonical value r in
      after_capture kind interface is_fresh answer r1

  -- What `assert_interface_operable` raises is refused, if it is an error of SwitchOps.
  unfoldable pub with_target :
      OperationKind
      → Text
      → Option Text
      → Bool
      → Result Text
      → Run S
      → Result OperationResult × Run S
  unfolding refuse safe_value with_value is_switchops_error
  with_target kind interface value is_fresh (ok canonical) r =
      let (o, r1) = with_value kind interface canonical is_fresh (safe_value kind value) r in
      (ok o, r1)
  with_target kind interface value is_fresh (err e) r =
      let (o, r1) = refuse kind interface r in
      if is_switchops_error e then (ok o, r1) else (err e, r)

  start : S → Run S
  start w = record { world = w; stages = []; sent = []; log = [] }

  -- `_run_operation_authorized`; `host` is the configured device at its own look.
  run_operation_authorized :
      (Text → Text)
      → Option Text
      → Stored
      → OperationKind
      → Text
      → Option Text
      → Bool
      → S
      → Result OperationResult × Run S
  unfolding begin with_target assert_operable start
  run_operation_authorized digest host stored kind interface value is_fresh w =
      with_target kind interface value is_fresh (assert_operable digest host interface stored)
        (begin precheck (start w))

  -- The two context managers: the lock's guard is entered first.
  let_in :
      Result (Unit {0})
      → Result Text
      → Result OperationResult × Run S
      → S
      → Result OperationResult × Run S
  unfolding start
  let_in (err e) policy go w = (err e, start w)
  let_in (ok _) (err e) go w = (err e, start w)
  let_in (ok _) (ok _) go w = go

  -- `run_operation`: the lock of the session, then the policy, and both are held to the end.
  unfoldable pub run_operation :
      (Text → Text)
      → Option Text
      → Option Text
      → WriteLock
      → Stored
      → OperationKind
      → Text
      → Option Text
      → Bool
      → S
      → Result OperationResult × Run S
  unfolding run_operation_authorized controlled_writes_enabled policy_guard Lock.operation_guard
      let_in
  run_operation digest guard_host host lock stored kind interface value is_fresh w =
      let go = run_operation_authorized digest host stored kind interface value is_fresh w in
      let_in (Lock.operation_guard (controlled_writes_enabled stored) lock)
        (policy_guard digest guard_host interface stored) go w
