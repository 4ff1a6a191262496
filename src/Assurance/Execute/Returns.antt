-- ===== src/Assurance/Execute/Returns.antt =====
-- What an execution returns behind the guards.
use switch_ops.Prelude.{◌≡◌, refl, some, ◌++◌, Result, ok, err}
use switch_ops.Policy.Model.{operable}
use switch_ops.Policy.Store.{state_for}
use switch_ops.Operations.Reads.{OperationResult}
use switch_ops.Assurance.Model.{
  executing, capturing_before, verifying, capturing_after, AssuranceSnapshot, outcome_ready,
  outcome_blocked, Outcome, ChangeSession,
}
use switch_ops.Assurance.Preflight.Verdict.{run_checks-returns}
use switch_ops.Assurance.Desk.{Desk, settle, save, on_client}
use switch_ops.Assurance.Sessions.{saved}
use switch_ops.Assurance.Execute.{
  reported, Setting, observe, transaction, after_observation, after_transaction, transact,
  on_outcome, after_checks, after_before, authorized,
}

-- A run that returns.
abbrev pub Returns : {S : Type 0} → Result ChangeSession × Desk S → Type 0
Returns run = (ended : ChangeSession) × (run.0 ≡ ok ended)

module _ {S : Type 0} (x : Setting S) where
  after_observation-Returns :
      (result : OperationResult) (before : AssuranceSnapshot) (s : ChangeSession)
      (after : Result AssuranceSnapshot) (d : Desk S)
      → Returns (after_observation x result before s after d)
  unfolding after_observation saved
  after_observation-Returns result before s (ok after) d = (_, refl)
  after_observation-Returns result before s (err e) d = (_, refl)

  after_transaction-Returns :
      (before : AssuranceSnapshot) (s : ChangeSession) (result : Result OperationResult)
      (d : Desk S)
      → Returns (after_transaction x before s result d)
  unfolding after_transaction saved
  after_transaction-Returns before s (err e) d = (_, refl)
  after_transaction-Returns before s (ok result) d =
      let verified =
        settle verifying capturing_after (record s { operation_result = some result }) in
      let (after, d1) = on_client (observe x verified) (save verified d) in
      after_observation-Returns result before verified after d1

  transact-Returns :
      (before : AssuranceSnapshot) (s : ChangeSession) (d : Desk S)
      → Returns (transact x before s d)
  unfolding transact
  transact-Returns before s d =
      let (s1, d1) = reported x.reports s (save s d) in
      let (result, run) = transaction x s.plan d.world in
      after_transaction-Returns before s1 result
        (record d1 { world = run.world; sent = d1.sent ++ run.sent })

  on_outcome-Returns :
      (o : Outcome) (before : AssuranceSnapshot) (s : ChangeSession) (d : Desk S)
      → Returns (on_outcome x o before s d)
  unfolding on_outcome saved
  on_outcome-Returns outcome_ready before s d = transact-Returns before s d
  on_outcome-Returns outcome_blocked before s d = (_, refl)

  -- Behind the guard of the policy, the checks return.
  after_before-Returns :
      (s : ChangeSession)
      → state_for x.digest x.host s.plan.target_interface x.stored ≡ ok operable
      → (before : Result AssuranceSnapshot) (d : Desk S) → Returns (after_before x s before d)
  unfolding after_before saved
  after_before-Returns s known (err e) d = (_, refl)
  after_before-Returns s known (ok before) d =
      let (p, checked) =
        run_checks-returns x.digest x.host x.stored x.lock s.plan before operable known in
      rw checked (
        unfold after_checks in
        on_outcome-Returns p.outcome before
          (record s { before_snapshot = some before; preflight = some p }) d)

  pub authorized-Returns :
      (s : ChangeSession) (d : Desk S)
      → state_for x.digest x.host s.plan.target_interface x.stored ≡ ok operable
      → Returns (authorized x s d)
  unfolding authorized settle
  authorized-Returns s d known =
      let begun = settle executing capturing_before s in
      let (before, d1) = on_client (observe x begun) (save begun d) in
      after_before-Returns begun known before d1
