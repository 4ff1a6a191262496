-- ===== src/Assurance/Execute.antt =====
-- `ChangeAssuranceService.execute`: the two guards, the snapshot before, the checks once more, the
-- transaction, the snapshot after and the comparison. `provide` is the provider of the context, and
-- `reports` are the lists of stages that the transaction reports while it runs, in their order.
pub mod Claims
pub mod Contract
pub mod Ends
pub mod Follows
pub mod Returns
pub mod Story
use switch_ops.Prelude.{
  Bool, Option, some, List, [], ◌∷◌, ◌++◌, if◌then◌else◌, Result, ok, err, command_not_allowed,
  not_ready,
}
use switch_ops.Text.{Text}
use switch_ops.Policy.Model.{Stored}
use switch_ops.Policy.Store.{controlled_writes_enabled, operation_guard as policy_guard}
use switch_ops.Operations.Lock
use switch_ops.Operations.Lock.{WriteLock}
use switch_ops.Operations.Exec.{Client, Exec, Run, Stage, ◌>>=◌}
use switch_ops.Operations.Reads.{OperationResult}
use switch_ops.Operations.Pipeline.{run_operation}
use switch_ops.Assurance.Model
use switch_ops.Assurance.Model.{
  executing, verifying, indeterminate, ChangePlan, AssuranceSnapshot, Outcome, outcome_ready,
  outcome_blocked, ChangePreflight, capturing_before, before_failed, conditions_changed,
  no_conclusive_result, capturing_after, after_failed, ChangeSession,
}
use switch_ops.Assurance.Context.{Context}
use switch_ops.Assurance.Preflight.{run_checks}
use switch_ops.Assurance.Compare.{compare_snapshots}
use switch_ops.Assurance.Desk.{Desk, settle, save, on_client}
use switch_ops.Assurance.Service.{is_ready, progress, verdict}
use switch_ops.Assurance.Sessions.{with_session, saved, snapshot_of}

module _ {S : Type 0} where
  -- `operation_progress`, for each report.
  unfoldable pub reported : List (List Stage) → ChangeSession → Desk S → ChangeSession × Desk S
  unfolding progress save
  reported [] s d = (s, d)
  reported (stages ∷ rest) s d =
      let next = record s { operation_stages = stages; status = progress stages s.status } in
      reported rest next (save next d)

-- What an execution meets: the device, the configured host at each look, the policy file and the lock,
-- whether a backup is fresh, the context at each look, and what the transaction reports.
pub record Setting (S : Type 0) : Type 0 where
  pub client : Client S
  pub digest : Text → Text
  pub host : Option Text
  pub guard_host : Option Text
  pub run_host : Option Text
  pub stored : Stored
  pub lock : WriteLock
  pub is_fresh : Bool
  pub provide : S → Result Context × S
  pub reports : List (List Stage)

module _ {S : Type 0} (x : Setting S) where
  -- A snapshot of the target, with the context of the moment.
  unfoldable pub observe : ChangeSession → Exec S AssuranceSnapshot
  unfolding ◌>>=◌ snapshot_of
  observe s = do
    context ← (λ r. let (context, w) = x.provide r.world in (context, record r { world = w }))
    snapshot_of x.client x.digest s context

  unfoldable pub transaction : ChangePlan → S → Result OperationResult × Run S
  unfolding run_operation
  transaction plan w =
      run_operation x.client x.digest x.guard_host x.run_host x.lock x.stored plan.step.kind
        plan.target_interface plan.step.value x.is_fresh w

  -- The comparison gives the final status.
  unfoldable pub conclude :
      OperationResult → AssuranceSnapshot → AssuranceSnapshot → ChangeSession → ChangeSession
  unfolding compare_snapshots verdict settle
  conclude result before after s =
      let comparison = compare_snapshots s.plan before after result in
      let (status, detail) = verdict result comparison in
      settle status detail (record s { after_snapshot = some after; comparison = some comparison })

  after_observation :
      OperationResult
      → AssuranceSnapshot
      → ChangeSession
      → Result AssuranceSnapshot
      → Desk S
      → Result ChangeSession × Desk S
  unfolding conclude saved settle
  after_observation result before s (ok after) = saved (conclude result before after s)
  after_observation result before s (err e) = saved (settle indeterminate after_failed s)

  after_transaction :
      AssuranceSnapshot
      → ChangeSession
      → Result OperationResult
      → Desk S
      → Result ChangeSession × Desk S
  unfolding saved settle save observe on_client after_observation
  after_transaction before s (err e) d = saved (settle indeterminate no_conclusive_result s) d
  after_transaction before s (ok result) d =
      let verified =
        settle verifying capturing_after (record s { operation_result = some result }) in
      let (after, d1) = on_client (observe verified) (save verified d) in
      after_observation result before verified after d1

  -- The transaction runs; the session is saved with each report.
  transact : AssuranceSnapshot → ChangeSession → Desk S → Result ChangeSession × Desk S
  unfolding save transaction reported after_transaction
  transact before s d =
      let (result, run) = transaction s.plan d.world in
      let (s1, d1) = reported x.reports s (save s d) in
      after_transaction before s1 result
        (record d1 { world = run.world; sent = d1.sent ++ run.sent })

  -- Without a ready preflight nothing is configured.
  on_outcome : Outcome → AssuranceSnapshot → ChangeSession → Desk S → Result ChangeSession × Desk S
  unfolding transact saved settle
  on_outcome outcome_blocked before s d = saved (settle Model.blocked conditions_changed s) d
  on_outcome outcome_ready before s d = transact before s d

  -- A fault of the policy store is raised.
  after_checks :
      AssuranceSnapshot
      → ChangeSession
      → Result ChangePreflight
      → Desk S
      → Result ChangeSession × Desk S
  unfolding on_outcome
  after_checks before s (err e) d = (err e, d)
  after_checks before s (ok p) d = on_outcome p.outcome before (record s { preflight = some p }) d

  after_before : ChangeSession → Result AssuranceSnapshot → Desk S → Result ChangeSession × Desk S
  unfolding saved settle run_checks after_checks
  after_before s (err e) d = saved (settle Model.blocked before_failed s) d
  after_before s (ok before) d =
      after_checks before (record s { before_snapshot = some before })
        (run_checks x.digest x.host x.stored x.lock s.plan before) d

  -- Under both guards.
  pub authorized : ChangeSession → Desk S → Result ChangeSession × Desk S
  unfolding settle save observe on_client after_before
  authorized s d =
      let begun = settle executing capturing_before s in
      let (before, d1) = on_client (observe begun) (save begun d) in after_before begun before d1

  -- The two context managers: the lock's guard is entered first.
  let_in : Result (Unit {0}) → Result Text → ChangeSession → Desk S → Result ChangeSession × Desk S
  unfolding authorized
  let_in (err e) permission s d = (err e, d)
  let_in (ok u) (err e) s d = (err e, d)
  let_in (ok u) (ok device) s d = authorized s d

  execute_session : ChangeSession → Desk S → Result ChangeSession × Desk S
  unfolding is_ready let_in Lock.operation_guard policy_guard controlled_writes_enabled
  execute_session s d =
      let go =
        let_in (Lock.operation_guard (controlled_writes_enabled x.stored) x.lock)
          (policy_guard x.digest x.host s.plan.target_interface x.stored) s d in
      if is_ready s.status then go else (err (command_not_allowed not_ready), d)

  unfoldable pub execute : Text → Desk S → Result ChangeSession × Desk S
  unfolding with_session execute_session
  execute id = with_session id execute_session
