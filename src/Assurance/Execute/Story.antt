-- ===== src/Assurance/Execute/Story.antt =====
-- The ways in which an execution ends, with what was sent to the device on each.
use switch_ops.Prelude.{◌≡◌, refl, some, List, [], ◌∷◌, ◌++◌, Result, ok, err}
use switch_ops.Text.{Text}
use switch_ops.Operations.Exec.{Client, Stage, Run}
use switch_ops.Operations.Reads.{OperationResult}
use switch_ops.Operations.Pipeline.Silent.{Silent, Silent-bind}
use switch_ops.Assurance.Model
use switch_ops.Assurance.Model.{
  indeterminate, AssuranceSnapshot, outcome_ready, ChangePreflight, ChangeSession,
}
use switch_ops.Assurance.Context.{Context}
use switch_ops.Assurance.Capture.Silent.{Silent-capture}
use switch_ops.Assurance.Preflight.{run_checks}
use switch_ops.Assurance.Compare.{compare_snapshots}
use switch_ops.Assurance.Desk.{Desk, store, save, find}
use switch_ops.Assurance.Service.{progress, verdict}
use switch_ops.Assurance.Sessions.{snapshot_of}
use switch_ops.Assurance.Execute.{reported, Setting, observe, transaction}

module _ {S : Type 0} where
  -- The reports change nothing but the status and the stages of the session, and the saved sessions.
  pub reported-plan :
      (reports : List (List Stage)) (s : ChangeSession) (d : Desk S)
      → (reported reports s d).0.plan ≡ s.plan
  unfolding reported
  reported-plan [] s d = refl
  reported-plan (stages ∷ rest) s d =
      let next = record s { operation_stages = stages; status = progress stages s.status } in
      reported-plan rest next (save next d)

  pub reported-before :
      (reports : List (List Stage)) (s : ChangeSession) (d : Desk S)
      → (reported reports s d).0.before_snapshot ≡ s.before_snapshot
  unfolding reported
  reported-before [] s d = refl
  reported-before (stages ∷ rest) s d =
      let next = record s { operation_stages = stages; status = progress stages s.status } in
      reported-before rest next (save next d)

  pub reported-id :
      (reports : List (List Stage)) (s : ChangeSession) (d : Desk S)
      → (reported reports s d).0.id ≡ s.id
  unfolding reported
  reported-id [] s d = refl
  reported-id (stages ∷ rest) s d =
      let next = record s { operation_stages = stages; status = progress stages s.status } in
      reported-id rest next (save next d)

  pub reported-sent :
      (reports : List (List Stage)) (s : ChangeSession) (d : Desk S)
      → (reported reports s d).1.sent ≡ d.sent
  unfolding reported save store
  reported-sent [] s d = refl
  reported-sent (stages ∷ rest) s d =
      let next = record s { operation_stages = stages; status = progress stages s.status } in
      reported-sent rest next (save next d)

Silent-snapshot_of :
    {S : Type 0} (c : Client S) (digest : Text → Text) (s : ChangeSession) (context : Context)
    → Silent (snapshot_of c digest s context)
unfolding snapshot_of
Silent-snapshot_of c digest s context =
    Silent-capture c digest s.plan.device_id s.plan.target_interface s.plan.step.kind
      s.plan.step.value context

module _ {S : Type 0} (x : Setting S) where
  pub Silent-observe : (s : ChangeSession) → Silent (observe x s)
  unfolding observe
  Silent-observe s =
      Silent-bind _ _ (record { sent = λ r. refl; stages = λ r. refl })
        (λ context. Silent-snapshot_of x.client x.digest s context)

  -- What a look at the device from a state of it gives, and the state that it leaves.
  unfoldable pub glance : ChangeSession → S → Result AssuranceSnapshot × S
  unfolding observe
  glance s w =
      let (answer, r) = observe x s (record { world = w; stages = []; sent = []; log = [] }) in
      (answer, r.world)

  -- A look depends on the plan of the session only.
  pub glance-plan : (s1 s : ChangeSession) (w : S) → s1.plan ≡ s.plan → glance s1 w ≡ glance s w
  unfolding glance observe snapshot_of
  glance-plan s1 s w same = rw same refl

  -- The transaction that runs when the device has been looked at from `w`.
  abbrev pub run_from : ChangeSession → S → Result OperationResult × Run S
  run_from s w = transaction x s.plan (glance s w).1

  -- The checks on the snapshot that is taken from `w` let the plan through.
  pub record IsCleared (s : ChangeSession) (w : S) (before : AssuranceSnapshot) : Type 0 where
    pub taken : (glance s w).0 ≡ ok before
    pub preflight : ChangePreflight
    pub checks : run_checks x.digest x.host x.stored x.lock s.plan before ≡ ok preflight
    pub ready : preflight.outcome ≡ outcome_ready

  -- The ends of an execution for the session `s` on a device in the state `w`: what the session is in the
  -- end, and what was sent.
  pub data Ends (s : ChangeSession) (w : S) (ended : ChangeSession) (sent : List (List Text))
      : Type 0 where
    -- The snapshot before or the checks on it stop it.
    stopped : ended.status ≡ Model.blocked → sent ≡ [] → Ends s w ended sent
    -- The transaction raises.
    inconclusive :
        (before : AssuranceSnapshot)
        → IsCleared s w before
        → ended.status ≡ indeterminate
        → sent ≡ []
        → Ends s w ended sent
    -- The transaction returns, and no snapshot is taken after it.
    unobserved :
        (before : AssuranceSnapshot)
        → IsCleared s w before
        → (result : OperationResult) → (run_from s w).0 ≡ ok result
        → sent ≡ (run_from s w).1.sent
        → ended.status ≡ indeterminate
        → Ends s w ended sent
    concluded :
        (before after : AssuranceSnapshot)
        → IsCleared s w before
        → (result : OperationResult) → (run_from s w).0 ≡ ok result
        → sent ≡ (run_from s w).1.sent
        → (glance s (run_from s w).1.world).0 ≡ ok after
        → ended.status ≡ (verdict result (compare_snapshots s.plan before after result)).0
        → ended.before_snapshot ≡ some before
        → ended.after_snapshot ≡ some after
        → ended.operation_result ≡ some result
        → ended.comparison ≡ some (compare_snapshots s.plan before after result)
        → Ends s w ended sent

  -- An execution returns a session at one of its ends, which is the one that is stored, or it raises.
  abbrev pub EndsBy : ChangeSession → S → List (List Text) → Result ChangeSession × Desk S → Type 0
  EndsBy s w sent (ok ended, d) =
      (more : List (List Text)) × (d.sent ≡ sent ++ more)
      × Ends s w ended more
      × (find s.id d ≡ some ended)
  EndsBy s w sent (err e, d) = d.sent ≡ sent
