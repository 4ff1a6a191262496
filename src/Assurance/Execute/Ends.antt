-- ===== src/Assurance/Execute/Ends.antt =====
-- The ways of the story, for each step of an execution.
use mathlib.Core.List.{append-nil}
use switch_ops.Prelude.{◌≡◌, refl, sym, ap, ◌∙◌, subst, some, List, [], ◌++◌, Result, ok, err}
use switch_ops.Text.{Text}
use switch_ops.Operations.Reads.{OperationResult}
use switch_ops.Operations.Pipeline.Story.Contract.{raised-silent}
use switch_ops.Assurance.Model
use switch_ops.Assurance.Model.{
  verifying, executing, indeterminate, capturing_before, before_failed, conditions_changed,
  no_conclusive_result, capturing_after, after_failed, AssuranceSnapshot, outcome_ready,
  outcome_blocked, Outcome, ChangePreflight, ChangeSession,
}
use switch_ops.Assurance.Preflight.{run_checks}
use switch_ops.Assurance.Compare.{compare_snapshots}
use switch_ops.Assurance.Desk.{Desk, settle, store, save, on_client}
use switch_ops.Assurance.Desk.Laws.{on_client-sent, find-save_key}
use switch_ops.Assurance.Service.{verdict}
use switch_ops.Assurance.Sessions.{saved}
use switch_ops.Assurance.Execute.{
  reported, Setting, observe, transaction, conclude, after_observation, after_transaction, transact,
  on_outcome, after_checks, after_before, authorized,
}
use switch_ops.Assurance.Execute.Story.{
  reported-plan, reported-before, reported-id, reported-sent, Silent-observe, glance, glance-plan,
  run_from, IsCleared, stopped, inconclusive, unobserved, concluded, EndsBy,
}

module _ {S : Type 0} (x : Setting S) where
  after_observation-EndsBy :
      (s0 s : ChangeSession) (w : S) (sent : List (List Text)) (before : AssuranceSnapshot)
      → IsCleared x s0 w before
      → s.plan ≡ s0.plan
      → s.id ≡ s0.id
      → s.before_snapshot ≡ some before
      → (result : OperationResult) → s.operation_result ≡ some result
      → (run_from x s0 w).0 ≡ ok result
      → (after : Result AssuranceSnapshot) (d : Desk S)
      → (glance x s0 (run_from x s0 w).1.world).0 ≡ after
      → d.sent ≡ sent ++ (run_from x s0 w).1.sent
      → EndsBy x s0 w sent (after_observation x result before s after d)
  unfolding after_observation saved settle save store conclude
  after_observation-EndsBy s0 s w sent before clear same key first result kept ran (err e) d look
        so_far =
      (
        (run_from x s0 w).1.sent,
        so_far,
        unobserved before clear result ran refl refl,
        find-save_key (settle indeterminate after_failed s) d key,
      )
  after_observation-EndsBy s0 s w sent before clear same key first result kept ran (ok after) d look
        so_far =
      (
        (run_from x s0 w).1.sent,
        so_far,
        concluded before after clear result ran refl look
            (ap (λ p. (verdict result (compare_snapshots p before after result)).0) same) first refl
            kept (ap (λ p. some (compare_snapshots p before after result)) same),
        find-save_key (conclude x result before after s) d key,
      )

  after_transaction-EndsBy :
      (s0 s : ChangeSession) (w : S) (sent : List (List Text)) (before : AssuranceSnapshot)
      → IsCleared x s0 w before
      → s.plan ≡ s0.plan
      → s.id ≡ s0.id
      → s.before_snapshot ≡ some before
      → (result : Result OperationResult) → (run_from x s0 w).0 ≡ result
      → (d : Desk S) → d.world ≡ (run_from x s0 w).1.world
      → d.sent ≡ sent ++ (run_from x s0 w).1.sent
      → EndsBy x s0 w sent (after_transaction x before s result d)
  unfolding after_transaction settle save store
  after_transaction-EndsBy s0 s w sent before clear same key first (err e) raised d here so_far =
      let silent : (run_from x s0 w).1.sent ≡ [] =
        unfold transaction in
        raised-silent x.client x.digest x.guard_host x.run_host x.lock x.stored s0.plan.step.kind
          s0.plan.target_interface s0.plan.step.value x.is_fresh (glance x s0 w).1 e raised in
      (
        (run_from x s0 w).1.sent,
        so_far,
        inconclusive before clear refl silent,
        find-save_key (settle indeterminate no_conclusive_result s) d key,
      )
  after_transaction-EndsBy s0 s w sent before clear same key first (ok result) ran d here so_far =
      let verified =
        settle verifying capturing_after (record s { operation_result = some result }) in
      let looked = on_client (observe x verified) (save verified d) in
      after_observation-EndsBy s0 verified w sent before clear same key first result refl ran
        looked.0 looked.1
        (ap (λ v. (glance x s0 v).0) (sym here)
          ∙ ap (λ a. a.0) (sym (glance-plan x verified s0 d.world same))
          ∙ (unfold glance on_client in refl))
        (on_client-sent (observe x verified) (save verified d) (Silent-observe x verified) ∙ so_far)

  transact-EndsBy :
      (s0 s : ChangeSession) (w : S) (before : AssuranceSnapshot)
      → IsCleared x s0 w before
      → s.plan ≡ s0.plan
      → s.id ≡ s0.id
      → s.before_snapshot ≡ some before
      → (d : Desk S) → d.world ≡ (glance x s0 w).1
      → EndsBy x s0 w d.sent (transact x before s d)
  unfolding transact save store
  transact-EndsBy s0 s w before clear same key first d here =
      let (s1, d1) = reported x.reports s (save s d) in
      let run = (transaction x s.plan d.world).1 in
      let ran : transaction x s.plan d.world ≡ run_from x s0 w =
        ap (λ p. transaction x p d.world) same ∙ ap (λ v. transaction x s0.plan v) here in
      after_transaction-EndsBy s0 s1 w d.sent before clear
        (reported-plan x.reports s (save s d) ∙ same) (reported-id x.reports s (save s d) ∙ key)
        (reported-before x.reports s (save s d) ∙ first) (transaction x s.plan d.world).0
        (ap (λ t. t.0) (sym ran)) (record d1 { world = run.world; sent = d1.sent ++ run.sent })
        (ap (λ t. t.1.world) ran)
        (ap (λ l. l ++ run.sent) (reported-sent x.reports s (save s d))
          ∙ ap (λ t. d.sent ++ t.1.sent) ran)

  on_outcome-EndsBy :
      (s : ChangeSession) (w : S) (before : AssuranceSnapshot)
      → (glance x s w).0 ≡ ok before
      → (p : ChangePreflight) → run_checks x.digest x.host x.stored x.lock s.plan before ≡ ok p
      → (o : Outcome) → p.outcome ≡ o
      → (s1 : ChangeSession) → s1.plan ≡ s.plan
      → s1.id ≡ s.id
      → s1.before_snapshot ≡ some before
      → (d : Desk S) → d.world ≡ (glance x s w).1
      → EndsBy x s w d.sent (on_outcome x o before s1 d)
  unfolding on_outcome saved settle save store
  on_outcome-EndsBy s w before taken p found outcome_ready h s1 same key first d here =
      transact-EndsBy s s1 w before
        (record { taken = taken; preflight = p; checks = found; ready = h }) same key first d here
  on_outcome-EndsBy s w before taken p found outcome_blocked h s1 same key first d here = (
    [],
    sym (append-nil d.sent),
    stopped refl refl,
    find-save_key (settle Model.blocked conditions_changed s1) d key,
  )

  after_checks-EndsBy :
      (s : ChangeSession) (w : S) (before : AssuranceSnapshot)
      → (glance x s w).0 ≡ ok before
      → (p : Result ChangePreflight) → run_checks x.digest x.host x.stored x.lock s.plan before ≡ p
      → (s1 : ChangeSession) → s1.plan ≡ s.plan
      → s1.id ≡ s.id
      → s1.before_snapshot ≡ some before
      → (d : Desk S) → d.world ≡ (glance x s w).1
      → EndsBy x s w d.sent (after_checks x before s1 p d)
  unfolding after_checks
  after_checks-EndsBy s w before taken (err e) found s1 same key first d here = refl
  after_checks-EndsBy s w before taken (ok p) found s1 same key first d here =
      on_outcome-EndsBy s w before taken p found p.outcome refl (record s1 { preflight = some p })
        same key first d here

  after_before-EndsBy :
      (s s1 : ChangeSession) (w : S)
      → s1.plan ≡ s.plan
      → s1.id ≡ s.id
      → (before : Result AssuranceSnapshot) → (glance x s w).0 ≡ before
      → (d : Desk S) → d.world ≡ (glance x s w).1
      → EndsBy x s w d.sent (after_before x s1 before d)
  unfolding after_before saved settle save store
  after_before-EndsBy s s1 w same key (err e) taken d here = (
    [],
    sym (append-nil d.sent),
    stopped refl refl,
    find-save_key (settle Model.blocked before_failed s1) d key,
  )
  after_before-EndsBy s s1 w same key (ok before) taken d here =
      after_checks-EndsBy s w before taken
        (run_checks x.digest x.host x.stored x.lock s1.plan before)
        (ap (λ p. run_checks x.digest x.host x.stored x.lock p before) (sym same))
        (record s1 { before_snapshot = some before }) same key refl d here

  pub authorized-EndsBy :
      (s : ChangeSession) (d : Desk S) → EndsBy x s d.world d.sent (authorized x s d)
  unfolding authorized settle save store
  authorized-EndsBy s d =
      let begun = settle executing capturing_before s in
      let (before, d1) = on_client (observe x begun) (save begun d) in
      let look : glance x s d.world ≡ glance x begun d.world =
        sym (glance-plan x begun s d.world refl) in
      subst (λ sent. EndsBy x s d.world sent (after_before x begun before d1))
        (on_client-sent (observe x begun) (save begun d) (Silent-observe x begun))
        (after_before-EndsBy s begun d.world refl refl before
          (ap (λ a. a.0) look ∙ (unfold glance on_client in refl)) d1
          (sym (ap (λ a. a.1) look ∙ (unfold glance on_client in refl))))
