-- ===== src/Operations/Pipeline/Story/Gates.antt =====
-- `run_operation` as a whole: when anything is sent, and what the result says of it.
use switch_ops.Prelude.{
  ◌≡◌, refl, sym, ap, subst, ◌∙◌, ◌++◌, All, inl, inr, Bool, false, Option, none, some, List, [],
  Bool-cases, Result, ok, err,
}
use switch_ops.Text.{Text}
use switch_ops.Operations.Catalogue.{OperationKind, rollback_commands}
use switch_ops.Operations.Exec.{blocked, Client, Call, Run, begin, finish}
use switch_ops.Operations.Reads.{Outcome, OperationResult, Plan, result}
use switch_ops.Operations.Pipeline.{
  safe_value, is_switchops_error, capture, refuse, after_capture, with_value, with_target,
}
use switch_ops.Operations.Pipeline.Silent.{IsCaptured, Silent-capture, capture-IsCaptured}
use switch_ops.Operations.Pipeline.Readings.{IsReading, Measured}
use switch_ops.Operations.Pipeline.Readings.Logged.{Logs-capture}
use switch_ops.Operations.Pipeline.Story.{Story}
use switch_ops.Operations.Pipeline.Story.Steps.{run_plan-Story}

-- The state that a plan starts from was read from the device before anything was sent to it.
pub record IsMeasured (p : Plan) (log : List Call) : Type 0 where
  pub early : List Call
  pub later : List Call
  pub order : log ≡ early ++ later
  pub quiet : All IsReading early
  pub read : Measured p.kind p.canonical p early

-- A transaction is refused and sends nothing, or it follows a plan for an authorized target.
pub data Transaction (kind : OperationKind) (target : Result Text) (value : Result (Option Text))
    (o : Outcome) (sent : List (List Text)) (log : List Call) : Type 0 where
  not_begun :
      o.status ≡ blocked
      → o.commands ≡ []
      → o.requires_save ≡ false
      → sent ≡ []
      → Transaction kind target value o sent log
  planned :
      (p : Plan)
      → target ≡ ok p.canonical
      → value ≡ ok p.value
      → p.kind ≡ kind
      → rollback_commands p.kind p.canonical p.before_config ≡ some p.rollback_commands
      → IsMeasured p log
      → Story p o sent log
      → Transaction kind target value o sent log

module _ {S : Type 0} (c : Client S) (kind : OperationKind) (interface : Text) where
  refuse-Transaction :
      (target : Result Text) (value : Result (Option Text)) (r : Run S)
      → r.sent ≡ []
      → let (res, r') = refuse c kind interface r in
        Transaction kind target value res.outcome r'.sent r'.log
  unfolding refuse result begin finish
  refuse-Transaction target value r h = not_begun refl refl refl h

  after_capture-Transaction :
      (canonical : Text) (value : Option Text) (is_fresh : Bool) (answer : Result (Option Plan))
      (r : Run S)
      → ((p : Plan) → answer ≡ ok (some p) → IsCaptured kind interface canonical value p)
      → ((p : Plan) → answer ≡ ok (some p) → Measured kind canonical p r.log)
      → All IsReading r.log
      → r.sent ≡ []
      → let (res, r') = after_capture c kind interface is_fresh answer r in
        Transaction kind (ok canonical) (ok value) res.outcome r'.sent r'.log
  unfolding after_capture
  after_capture-Transaction canonical value is_fresh (ok (some p)) r is read quiet h =
      let q = is p refl in
      let (story, (new, grown)) = run_plan-Story c is_fresh p r h in
      planned p (ap ok (sym q.same_target)) (ap ok (sym q.same_value)) q.same_kind
        (rw (q.same_kind) (rw (q.same_target) (q.undo)))
        (record {
          early = r.log;
          later = new;
          order = grown;
          quiet = quiet;
          read =
              subst (λ k. Measured k p.canonical p r.log) (sym q.same_kind)
                (subst (λ t. Measured kind t p r.log) (sym q.same_target) (read p refl));
        })
        story
  after_capture-Transaction canonical value is_fresh (ok none) r is read quiet h =
      refuse-Transaction _ _ r h
  after_capture-Transaction canonical value is_fresh (err e) r is read quiet h =
      refuse-Transaction _ _ r h

  with_value-Transaction :
      (canonical : Text) (is_fresh : Bool) (value : Result (Option Text)) (r : Run S)
      → r.sent ≡ []
      → r.log ≡ []
      → let (res, r') = with_value c kind interface canonical is_fresh value r in
        Transaction kind (ok canonical) value res.outcome r'.sent r'.log
  unfolding with_value
  with_value-Transaction canonical is_fresh (err e) r h empty = refuse-Transaction _ _ r h
  with_value-Transaction canonical is_fresh (ok value) r h empty =
      let (new, log, quiet, is) = (Logs-capture c kind interface canonical value).at r in
      let only : (capture c kind interface canonical value r).1.log ≡ new =
        log ∙ ap (λ l. l ++ new) empty in
      after_capture-Transaction canonical value is_fresh
        (capture c kind interface canonical value r).0
        (capture c kind interface canonical value r).1
        (capture-IsCaptured c kind interface canonical value r)
        (λ p e. subst (Measured kind canonical p) (sym only) (is (some p) e))
        (subst (All IsReading) (sym only) quiet)
        ((Silent-capture c kind interface canonical value).sent r ∙ h)

  -- What the end of `_run_operation_authorized` means: an exception comes before anything is sent.
  abbrev pub Ends : Option Text → Result Text → Result OperationResult × Run S → Type 0
  Ends value target (ok res, r) =
      Transaction kind target (safe_value kind value) res.outcome r.sent r.log
  Ends value target (err e, r) = r.sent ≡ []

  pub with_target-Ends :
      (value : Option Text) (is_fresh : Bool) (target : Result Text) (r : Run S)
      → r.sent ≡ []
      → r.log ≡ []
      → Ends value target (with_target c kind interface value is_fresh target r)
  unfolding with_target
  with_target-Ends value is_fresh (ok canonical) r h empty =
      with_value-Transaction canonical is_fresh (safe_value kind value) r h empty
  with_target-Ends value is_fresh (err e) r h empty = elim (Bool-cases (is_switchops_error e)) [
    | inl s ↦ rw s (refuse-Transaction _ _ r h)
    | inr s ↦ rw s h
  ]
