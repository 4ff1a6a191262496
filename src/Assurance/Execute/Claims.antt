-- ===== src/Assurance/Execute/Claims.antt =====
-- What a change that was sent, a reported success and a reported rollback rest on.
use mathlib.Core.List.{append-nil}
use switch_ops.Prelude.{
  ◌≡◌, ◌≢◌, sym, ◌∙◌, subst, true, List, [], ◌∷◌, ◌++◌, ap, some, inl, inr, arith, ok, err, Result,
  false,
}
use switch_ops.Text.{Text}
use switch_ops.Policy.Model.{operable}
use switch_ops.Policy.Store.{assert_operable, state_for, controlled_writes_enabled}
use switch_ops.Registry.Names.{normalize_interface}
use switch_ops.Registry.Names.Writable.{IsPort}
use switch_ops.Operations.Exec.{OperationStatus}
use switch_ops.Operations.Reads.{OperationResult, Plan, safe_value}
use switch_ops.Operations.Pipeline.Story.{forward, IsRestored}
use switch_ops.Operations.Pipeline.Story.Ends.{IsPlan, Achieved}
use switch_ops.Operations.Pipeline.Story.Contract.{
  sent-gated, success-Achieved, rolled_back-IsRestored,
}
use switch_ops.Assurance.Model
use switch_ops.Assurance.Model.{
  ready, succeeded, AssuranceSnapshot, met, ChangeComparison, ChangeSession,
}
use switch_ops.Assurance.Preflight.Verdict.{IsClear, run_checks-ready_iff}
use switch_ops.Assurance.Compare.{direct_of, compare_snapshots}
use switch_ops.Assurance.Compare.Quiet.{IsQuiet, compare_snapshots-IsQuiet}
use switch_ops.Assurance.Desk.{Desk, find}
use switch_ops.Assurance.Service.{verdict}
use switch_ops.Operations.Pipeline.Story.Gates.{IsMeasured}
use switch_ops.Assurance.Execute.{Setting, transaction, authorized}
use switch_ops.Assurance.Execute.Contract.{ran, ran-Cases, returned}
use switch_ops.Assurance.Execute.Ends.{authorized-EndsBy}
use switch_ops.Assurance.Execute.Story.{
  glance, run_from, IsCleared, Ends, EndsBy, stopped, inconclusive, unobserved, concluded,
}

-- Everything that must be given for the device to be configured from the state `w`: the checks are clear
-- on the snapshot that is taken from there, the lock of the session is open, controlled writes are
-- enabled, and the target is a physical port that the policy says is OPERABLE at each look.
pub record IsGated {S : Type 0} (x : Setting S) (s : ChangeSession) (w : S) : Type 0 where
  pub before : AssuranceSnapshot
  pub taken : (glance x s w).0 ≡ ok before
  pub clear : IsClear x.digest x.host x.stored s.plan before
  pub unlocked : x.lock.is_unlocked ≡ true
  pub enabled : controlled_writes_enabled x.stored ≡ true
  pub canonical : Text
  pub normal : normalize_interface s.plan.target_interface ≡ ok canonical
  pub port : IsPort canonical
  pub permitted : state_for x.digest x.guard_host s.plan.target_interface x.stored ≡ ok operable
  pub still : state_for x.digest x.run_host s.plan.target_interface x.stored ≡ ok operable

sent-IsGated :
    {S : Type 0} (x : Setting S) (s : ChangeSession) (w : S) (before : AssuranceSnapshot)
    → IsCleared x s w before
    → (run_from x s w).1.sent ≢ []
    → IsGated x s w
unfolding transaction
sent-IsGated x s w before clear some_sent =
    let cleared =
      (run_checks-ready_iff x.digest x.host x.stored x.lock s.plan before clear.preflight
          clear.checks).0
        clear.ready in
    let (open_lock, enabled, (canonical, normal, port, permitted, still)) =
      sent-gated x.client x.digest x.guard_host x.run_host x.lock x.stored s.plan.step.kind
        s.plan.target_interface s.plan.step.value x.is_fresh (glance x s w).1 some_sent in
    record {
      before = before;
      taken = clear.taken;
      clear = cleared;
      unlocked = open_lock;
      enabled = enabled;
      canonical = canonical;
      normal = normal;
      port = port;
      permitted = permitted;
      still = still;
    }

Ends-IsGated :
    {S : Type 0} (x : Setting S) {s ended : ChangeSession} {w : S} {more : List (List Text)}
    → Ends x s w ended more
    → more ≢ []
    → IsGated x s w
Ends-IsGated x (stopped e none) some_sent = absurd (some_sent none)
Ends-IsGated x (inconclusive before clear e none) some_sent = absurd (some_sent none)
Ends-IsGated x {s} {w = w} (unobserved before clear result run q e) some_sent =
    sent-IsGated x s w before clear (λ none. some_sent (q ∙ none))
Ends-IsGated x {s} {w = w} (concluded before after clear result run q look e a b k l) some_sent =
    sent-IsGated x s w before clear (λ none. some_sent (q ∙ none))

-- The evidence of a success on a device in the state `w`: the snapshots before and after the transaction
-- are the looks at the device there, and the ones in the session, as is the comparison; the plan of the
-- transaction was read from the device, and its postcondition was met or achieved by what was sent; and
-- the snapshot after shows the declared state, and nothing else that changed.
pub record IsProven {S : Type 0} (x : Setting S) (s : ChangeSession) (w : S) (ended : ChangeSession)
    (more : List (List Text)) : Type 0 where
  pub before : AssuranceSnapshot
  pub after : AssuranceSnapshot
  pub result : OperationResult
  pub taken : (glance x s w).0 ≡ ok before
  pub returned : (run_from x s w).0 ≡ ok result
  pub looked : (glance x s (run_from x s w).1.world).0 ≡ ok after
  pub kept_before : ended.before_snapshot ≡ some before
  pub kept_after : ended.after_snapshot ≡ some after
  pub kept_result : ended.operation_result ≡ some result
  pub compared : ended.comparison ≡ some (compare_snapshots s.plan before after result)
  pub silent : (compare_snapshots s.plan before after result).warnings ≡ []
  pub plan : Plan
  pub planned :
      IsPlan s.plan.step.kind
        (assert_operable x.digest x.run_host s.plan.target_interface x.stored)
        (safe_value s.plan.step.kind s.plan.step.value)
        plan
  pub measured : IsMeasured plan (run_from x s w).1.log
  pub achieved : Achieved plan result.outcome more (run_from x s w).1.log
  pub observed : direct_of s.plan.step after.target ≡ met
  pub quiet : IsQuiet s.plan.step.kind before after

verdict-succeeded :
    (result : OperationResult) (comparison : ChangeComparison)
    → (verdict result comparison).0 ≡ succeeded
    → (result.outcome.status ≡ OperationStatus.success)
      × (comparison.direct_postcondition ≡ met)
      × (comparison.warnings ≡ [])
unfolding verdict
verdict-succeeded result comparison h = ground arith

verdict-rolled_back :
    (result : OperationResult) (comparison : ChangeComparison)
    → (verdict result comparison).0 ≡ Model.rolled_back
    → result.outcome.status ≡ OperationStatus.rolled_back
unfolding verdict
verdict-rolled_back result comparison h = ground arith

module _ {S : Type 0} (x : Setting S) {s ended : ChangeSession} {w : S}
    {more : List (List Text)} where
  Ends-IsProven : Ends x s w ended more → ended.status ≡ succeeded → IsProven x s w ended more
  Ends-IsProven (stopped e none) h = absurd (cc)
  Ends-IsProven (inconclusive before clear e none) h = absurd (cc)
  Ends-IsProven (unobserved before clear result run q e) h = absurd (cc)
  Ends-IsProven (concluded before after clear result run q look e first second kept k) h =
      let (success, observed, silent) =
        verdict-succeeded result (compare_snapshots s.plan before after result) (sym e ∙ h) in
      let achieved : (p : Plan) × IsPlan s.plan.step.kind
            (assert_operable x.digest x.run_host s.plan.target_interface x.stored)
            (safe_value s.plan.step.kind s.plan.step.value) p
          × IsMeasured p (run_from x s w).1.log
          × Achieved p result.outcome (run_from x s w).1.sent (run_from x s w).1.log =
        unfold transaction in
        success-Achieved x.client x.digest x.guard_host x.run_host x.lock x.stored s.plan.step.kind
          s.plan.target_interface s.plan.step.value x.is_fresh (glance x s w).1 result run
          success in
      let (p, is, measured, by) = achieved in
      record {
        before = before;
        after = after;
        result = result;
        taken = clear.taken;
        returned = run;
        looked = look;
        kept_before = first;
        kept_after = second;
        kept_result = kept;
        compared = k;
        silent = silent;
        plan = p;
        planned = is;
        measured = measured;
        achieved = subst (λ l. Achieved p result.outcome l (run_from x s w).1.log) (sym q) by;
        observed = unfold compare_snapshots in observed;
        quiet = compare_snapshots-IsQuiet s.plan before after result silent;
      }

  -- What a reported rollback rests on.
  Ends-IsRestored :
      Ends x s w ended more
      → ended.status ≡ Model.rolled_back
      → (p : Plan) × IsPlan s.plan.step.kind
          (assert_operable x.digest x.run_host s.plan.target_interface x.stored)
          (safe_value s.plan.step.kind s.plan.step.value)
          p
        × IsMeasured p (run_from x s w).1.log
        × (more ≡ forward p ∷ p.rollback_commands ∷ [])
        × IsRestored p (run_from x s w).1.log
  Ends-IsRestored (stopped e none) h = absurd (cc)
  Ends-IsRestored (inconclusive before clear e none) h = absurd (cc)
  Ends-IsRestored (unobserved before clear result run q e) h = absurd (cc)
  Ends-IsRestored (concluded before after clear result run q look e first second kept k) h =
      let undone =
        verdict-rolled_back result (compare_snapshots s.plan before after result) (sym e ∙ h) in
      let found : (p : Plan) × IsPlan s.plan.step.kind
            (assert_operable x.digest x.run_host s.plan.target_interface x.stored)
            (safe_value s.plan.step.kind s.plan.step.value) p
          × IsMeasured p (run_from x s w).1.log
          × ((run_from x s w).1.sent ≡ forward p ∷ p.rollback_commands ∷ [])
          × IsRestored p (run_from x s w).1.log
          × (result.outcome.requires_save ≡ false) =
        unfold transaction in
        rolled_back-IsRestored x.client x.digest x.guard_host x.run_host x.lock x.stored
          s.plan.step.kind s.plan.target_interface s.plan.step.value x.is_fresh (glance x s w).1
          result run undone in
      let (p, is, measured, sent, restored, saves) = found in (p, is, measured, q ∙ sent, restored)

module _ {S : Type 0} (x : Setting S) (id : Text) (d : Desk S) (s : ChangeSession)
    (known : find id d ≡ some s) where
  -- When an execution sent anything to the device, the session was ready, the checks were clear on the
  -- snapshot that the execution took of the device before, the lock of the session is open, controlled
  -- writes are enabled, and the target is a physical port that the policy says is OPERABLE at each look.
  pub execute-IsGated :
      (ran x id d s known).1.sent ≢ d.sent → (s.status ≡ ready) × IsGated x s d.world
  execute-IsGated h = elim (ran-Cases x id d s known) [
    | inl (e, refused) ↦ absurd (h (ap (λ r. r.1.sent) refused))
    | inr (is, unlocked, permitted, run) ↦ (
      is,
      from (authorized x s d) (authorized-EndsBy x s d) (λ same. h (ap (λ r. r.1.sent) run ∙ same)),
    )
  ]
    where
      from :
          (r : Result ChangeSession × Desk S)
          → EndsBy x s d.world d.sent r
          → r.1.sent ≢ d.sent
          → IsGated x s d.world
      from (ok ended, d1) (more, sent, ends, found) k =
          Ends-IsGated x ends (λ none. k (sent ∙ ap (λ m. d.sent ++ m) none ∙ append-nil d.sent))
      from (err e, d1) same k = absurd (k same)

  -- A session that ends as SUCCEEDED has evidence: what was read from the device before met the
  -- postcondition and nothing was sent, or the commands were sent once and what was read behind them
  -- met it; the snapshots before and after in the session are those that were taken of the device, the
  -- comparison in it is theirs and has no warnings; the snapshot after shows the declared state of the
  -- target; and nothing changed between the two that the operation may not change.
  pub execute-IsProven :
      (ended : ChangeSession)
      → (ran x id d s known).0 ≡ ok ended
      → ended.status ≡ succeeded
      → (more : List (List Text)) × ((ran x id d s known).1.sent ≡ d.sent ++ more)
        × IsProven x s d.world ended more
  execute-IsProven ended back h =
      let (is, permitted, (more, sent, ends)) = returned x id d s known ended back in
      (more, sent, Ends-IsProven x ends h)

  -- A session that ends as ROLLED_BACK has sent the commands of the operation once and after them those
  -- that undo it, and what was read from the device behind them shows the configuration that was read
  -- before anything was sent.
  pub execute-IsRestored :
      (ended : ChangeSession)
      → (ran x id d s known).0 ≡ ok ended
      → ended.status ≡ Model.rolled_back
      → (p : Plan) × IsPlan s.plan.step.kind
          (assert_operable x.digest x.run_host s.plan.target_interface x.stored)
          (safe_value s.plan.step.kind s.plan.step.value)
          p
        × IsMeasured p (run_from x s d.world).1.log
        × ((ran x id d s known).1.sent ≡ d.sent ++ forward p ∷ p.rollback_commands ∷ [])
        × IsRestored p (run_from x s d.world).1.log
  execute-IsRestored ended back h =
      let (is, permitted, (more, sent, ends)) = returned x id d s known ended back in
      let (p, planned, measured, by, restored) = Ends-IsRestored x ends h in
      (p, planned, measured, sent ∙ ap (λ m. d.sent ++ m) by, restored)
