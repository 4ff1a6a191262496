-- ===== src/Assurance/Execute/Follows.antt =====
-- What `execute` saves one after another, and the state machine.
use mathlib.Core.List.{append-nil, append_assoc}
use switch_ops.Prelude.{
  ◌≡◌, refl, sym, ap, ◌∙◌, subst, true, some, List, [], ◌∷◌, ◌++◌, arith, Result, ok, err, inl, inr,
}
use switch_ops.Text.{Text}
use switch_ops.Operations.Exec.{Stage}
use switch_ops.Operations.Reads.{OperationResult}
use switch_ops.Assurance.Model
use switch_ops.Assurance.Model.{
  Status, ready, executing, verifying, indeterminate, capturing_before, capturing_after,
  before_failed, after_failed, conditions_changed, no_conclusive_result, AssuranceSnapshot, Outcome,
  outcome_ready, outcome_blocked, ChangePreflight, ChangeSession,
}
use switch_ops.Assurance.Preflight.{run_checks}
use switch_ops.Assurance.Compare.{compare_snapshots}
use switch_ops.Assurance.Desk.{Desk, settle, store, save, find, on_client}
use switch_ops.Assurance.Service.{is_at_work, is_complete, progress}
use switch_ops.Assurance.Sessions.{saved}
use switch_ops.Assurance.Execute.{
  reported, Setting, observe, transaction, conclude, after_observation, after_transaction, transact,
  on_outcome, after_checks, after_before, authorized,
}
use switch_ops.Assurance.Execute.Contract.{verdict-IsSettled, ran, ran-Cases}
use switch_ops.Assurance.States.{
  Next, start, work, stop, complete, Follows, last, Follows-append, last-append,
}

-- What was saved since the session had the status `from` and `old` had been heard, up to the session
-- whose status is `now`.
record SoFar (from : Status) (old : List ChangeSession) (now : Status) (heard : List ChangeSession)
    : Type 0 where
  news : List ChangeSession
  split : heard ≡ old ++ news
  follows : Follows from news
  ends : last from news ≡ now

SoFar-save :
    {from now : Status} {old heard : List ChangeSession} (s : ChangeSession)
    → SoFar from old now heard
    → Next now s.status
    → SoFar from old s.status (heard ++ s ∷ [])
SoFar-save {from} {now} {old} s before step = record {
  news = before.news ++ s ∷ [];
  split = ap (λ l. l ++ s ∷ []) before.split ∙ append_assoc old before.news (s ∷ []);
  follows =
      Follows-append from before.news (s ∷ []) before.follows
        (subst (λ t. Next t s.status) (sym before.ends) step, tt);
  ends = last-append from before.news (s ∷ []);
}

-- What a run has saved, if it returns.
abbrev FollowsBy :
    {S : Type 0} → Status → List ChangeSession → Result ChangeSession × Desk S → Type 0
FollowsBy from old (ok ended, d) = SoFar from old ended.status d.heard
FollowsBy from old (err e, d) = Unit

progress-in_flight :
    (stages : List Stage) (status : Status)
    → is_at_work status ≡ true
    → is_at_work (progress stages status) ≡ true
unfolding progress is_at_work
progress-in_flight [] status h = h
progress-in_flight (stage ∷ []) status h = ground arith
progress-in_flight (stage ∷ next ∷ rest) status h = progress-in_flight (next ∷ rest) status h

module _ {S : Type 0} (from : Status) (old : List ChangeSession) where
  saved-FollowsBy :
      {now : Status} (s : ChangeSession) (d : Desk S)
      → SoFar from old now d.heard
      → Next now s.status
      → FollowsBy from old (saved s d)
  unfolding saved save store
  saved-FollowsBy s d = SoFar-save s

  reported-SoFar :
      (reports : List (List Stage)) (s : ChangeSession) (d : Desk S)
      → is_at_work s.status ≡ true
      → SoFar from old s.status d.heard
      → (is_at_work (reported reports s d).0.status ≡ true)
        × SoFar from old (reported reports s d).0.status (reported reports s d).1.heard
  unfolding reported save store
  reported-SoFar [] s d busy so_far = (busy, so_far)
  reported-SoFar (stages ∷ rest) s d busy so_far =
      let next = record s { operation_stages = stages; status = progress stages s.status } in
      let still = progress-in_flight stages s.status busy in
      reported-SoFar rest next (save next d) still (SoFar-save next so_far (work busy still))

module _ {S : Type 0} (x : Setting S) (from : Status) (old : List ChangeSession) where
  after_observation-FollowsBy :
      (result : OperationResult) (before : AssuranceSnapshot) (s : ChangeSession)
      (after : Result AssuranceSnapshot) (d : Desk S)
      → is_at_work s.status ≡ true
      → SoFar from old s.status d.heard
      → FollowsBy from old (after_observation x result before s after d)
  unfolding after_observation conclude settle is_complete
  after_observation-FollowsBy result before s (ok after) d busy so_far =
      saved-FollowsBy from old (conclude x result before after s) d so_far
        (complete busy (verdict-IsSettled result (compare_snapshots s.plan before after result)))
  after_observation-FollowsBy result before s (err e) d busy so_far =
      saved-FollowsBy from old (settle indeterminate after_failed s) d so_far (complete busy refl)

  after_transaction-FollowsBy :
      (before : AssuranceSnapshot) (s : ChangeSession) (result : Result OperationResult)
      (d : Desk S)
      → is_at_work s.status ≡ true
      → SoFar from old s.status d.heard
      → FollowsBy from old (after_transaction x before s result d)
  unfolding after_transaction settle is_complete is_at_work on_client save store
  after_transaction-FollowsBy before s (err e) d busy so_far =
      saved-FollowsBy from old (settle indeterminate no_conclusive_result s) d so_far
        (complete busy refl)
  after_transaction-FollowsBy before s (ok result) d busy so_far =
      let verified =
        settle verifying capturing_after (record s { operation_result = some result }) in
      let (after, d1) = on_client (observe x verified) (save verified d) in
      after_observation-FollowsBy result before verified after d1 refl
        (SoFar-save verified so_far (work busy refl))

  transact-FollowsBy :
      (before : AssuranceSnapshot) (s : ChangeSession) (d : Desk S)
      → is_at_work s.status ≡ true
      → SoFar from old s.status d.heard
      → FollowsBy from old (transact x before s d)
  unfolding transact
  transact-FollowsBy before s d busy so_far =
      let (s1, d1) = reported x.reports s (save s d) in
      let (result, run) = transaction x s.plan d.world in
      let (busy1, so_far1) =
        reported-SoFar from old x.reports s (save s d) busy
          (unfold save store in SoFar-save s so_far (work busy busy)) in
      after_transaction-FollowsBy before s1 result
        (record d1 { world = run.world; sent = d1.sent ++ run.sent }) busy1 so_far1

  on_outcome-FollowsBy :
      (o : Outcome) (before : AssuranceSnapshot) (s : ChangeSession) (d : Desk S)
      → s.status ≡ executing
      → SoFar from old s.status d.heard
      → FollowsBy from old (on_outcome x o before s d)
  unfolding on_outcome
  on_outcome-FollowsBy outcome_ready before s d busy so_far =
      transact-FollowsBy before s d (unfold is_at_work in rw busy refl) so_far
  on_outcome-FollowsBy outcome_blocked before s d busy so_far =
      saved-FollowsBy from old (settle Model.blocked conditions_changed s) d so_far
        (unfold settle in rw busy stop)

  after_checks-FollowsBy :
      (before : AssuranceSnapshot) (s : ChangeSession) (p : Result ChangePreflight) (d : Desk S)
      → s.status ≡ executing
      → SoFar from old s.status d.heard
      → FollowsBy from old (after_checks x before s p d)
  unfolding after_checks
  after_checks-FollowsBy before s (err e) d busy so_far = tt
  after_checks-FollowsBy before s (ok p) d busy so_far =
      on_outcome-FollowsBy p.outcome before (record s { preflight = some p }) d busy so_far

  after_before-FollowsBy :
      (s : ChangeSession) (before : Result AssuranceSnapshot) (d : Desk S)
      → s.status ≡ executing
      → SoFar from old s.status d.heard
      → FollowsBy from old (after_before x s before d)
  unfolding after_before
  after_before-FollowsBy s (err e) d busy so_far =
      saved-FollowsBy from old (settle Model.blocked before_failed s) d so_far
        (unfold settle in rw busy stop)
  after_before-FollowsBy s (ok before) d busy so_far =
      after_checks-FollowsBy before (record s { before_snapshot = some before })
        (run_checks x.digest x.host x.stored x.lock s.plan before) d busy so_far

authorized-FollowsBy :
    {S : Type 0} (x : Setting S) (s : ChangeSession) (d : Desk S)
    → s.status ≡ ready
    → FollowsBy s.status d.heard (authorized x s d)
unfolding authorized
authorized-FollowsBy x s d is =
    let begun = settle executing capturing_before s in
    let (before, d1) = on_client (observe x begun) (save begun d) in
    after_before-FollowsBy x s.status d.heard begun before d1 (unfold settle in refl) (
      unfold on_client save store settle in
      SoFar-save begun
        (record { news = []; split = sym (append-nil d.heard); follows = tt; ends = refl })
        (rw is start))

-- What an execution saves one after another follows the state machine, from the status that the
-- session had to the one that it is returned with, whatever the transaction reports in between.
pub execute-Follows :
    {S : Type 0} (x : Setting S) (id : Text) (d : Desk S) (s : ChangeSession)
    (known : find id d ≡ some s) (ended : ChangeSession)
    → (ran x id d s known).0 ≡ ok ended
    → (news : List ChangeSession) × ((ran x id d s known).1.heard ≡ d.heard ++ news)
      × Follows s.status news
      × (last s.status news ≡ ended.status)
execute-Follows {S = S} x id d s known ended h = elim (ran-Cases x id d s known) [
  | inl (e, refused) ↦ absurd (cc (ap (λ r. r.0) (sym refused) ∙ h))
  | inr (is, unlocked, permitted, run) ↦
      subst
        (λ r.
          (news : List ChangeSession) × (r.1.heard ≡ d.heard ++ news)
          × Follows s.status news
          × (last s.status news ≡ ended.status))
        (sym run)
        (from (authorized x s d) (ap (λ r. r.0) (sym run) ∙ h) (authorized-FollowsBy x s d is))
]
  where
    from :
        (r : Result ChangeSession × Desk S)
        → r.0 ≡ ok ended
        → FollowsBy s.status d.heard r
        → (news : List ChangeSession) × (r.1.heard ≡ d.heard ++ news)
          × Follows s.status news
          × (last s.status news ≡ ended.status)
    from (ok ended', d1) h so_far =
        let same : ended' ≡ ended = cc h in
        (so_far.news, so_far.split, so_far.follows, so_far.ends ∙ ap (λ e. e.status) same)
    from (err e, d1) h so_far = absurd (cc)
