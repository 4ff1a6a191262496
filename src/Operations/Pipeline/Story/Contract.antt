-- ===== src/Operations/Pipeline/Story/Contract.antt =====
-- The contract of `run_operation`: when it configures the device, and what its result says of it.
use mathlib.Core.List.{flatten}
use switch_ops.Prelude.{
  ◌≡◌, ◌≢◌, refl, sym, ap, subst, ◌∙◌, ◌⊎◌, inl, inr, Bool, true, false, Option, [], ◌∷◌, Result,
  ok, err, Error,
}
use switch_ops.Text.{Text}
use switch_ops.Policy.Model.{Stored, operable}
use switch_ops.Policy.Store.{
  assert_operable, state_for, operation_guard as policy_guard, controlled_writes_enabled,
}
use switch_ops.Policy.Store.Authority.Grants.{assert_operable_iff, operation_guard_sound}
use switch_ops.Registry.Names.{normalize_interface}
use switch_ops.Registry.Names.Writable.{
  IsPort, assert_interface_writable_iff, assert_interface_writable-IsPort,
}
use switch_ops.Operations.Lock
use switch_ops.Operations.Lock.{WriteLock}
use switch_ops.Operations.Catalogue.{OperationKind}
use switch_ops.Operations.Exec.{success, blocked, rolled_back, Client, Run, begin, precheck}
use switch_ops.Operations.Reads.{OperationResult, Plan, safe_value}
use switch_ops.Operations.Pipeline.{start, let_in, run_operation_authorized, run_operation}
use switch_ops.Operations.Pipeline.Story.{forward, IsRestored}
use switch_ops.Operations.Pipeline.Story.Gates.{IsMeasured, Transaction, Ends, with_target-Ends}
use switch_ops.Operations.Pipeline.Story.Ends.{
  IsPlan, SentBy, Achieved, Transaction-SentBy, Transaction-commands, Transaction-Achieved,
  Transaction-undone, Transaction-blocked,
}

-- The two gates in front of a transaction.
pub record IsLetIn (digest : Text → Text) (host : Option Text) (lock : WriteLock) (stored : Stored)
    (interface : Text) : Type 0 where
  pub unlocked : Lock.operation_guard (controlled_writes_enabled stored) lock ≡ ok tt
  pub permitted : (c : Text) × (policy_guard digest host interface stored ≡ ok c)

module _ {S : Type 0} (c : Client S) (digest : Text → Text) (guard_host host : Option Text)
    (lock : WriteLock) (stored : Stored) (kind : OperationKind) (interface : Text)
    (value : Option Text) (is_fresh : Bool) (w : S) where
  abbrev ran : Result OperationResult × Run S
  ran = run_operation c digest guard_host host lock stored kind interface value is_fresh w

  abbrev target : Result Text
  target = assert_operable digest host interface stored

  authorized-Ends :
      Ends c kind interface value target
        (run_operation_authorized c digest host stored kind interface value is_fresh w)
  unfolding run_operation_authorized begin start
  authorized-Ends =
      with_target-Ends c kind interface value is_fresh target (begin precheck (start c w)) refl refl

  -- A gate is closed and nothing happens, or both are open and the transaction runs.
  ran-cases :
      ((ran.1.sent ≡ []) × ((e : Error) × (ran.0 ≡ err e)))
      ⊎ (IsLetIn digest guard_host lock stored interface × Ends c kind interface value target ran)
  unfolding run_operation
  ran-cases =
      by_gates (Lock.operation_guard (controlled_writes_enabled stored) lock)
        (policy_guard digest guard_host interface stored) refl refl
    where
      by_gates :
          (a : Result (Unit {0})) (b : Result Text)
          → Lock.operation_guard (controlled_writes_enabled stored) lock ≡ a
          → policy_guard digest guard_host interface stored ≡ b
          → let run =
              let_in c a b
                (run_operation_authorized c digest host stored kind interface value is_fresh w)
                w in
            ((run.1.sent ≡ []) × ((e : Error) × (run.0 ≡ err e)))
            ⊎ (IsLetIn digest guard_host lock stored interface
                × Ends c kind interface value target run)
      by_gates (err e) b p q = unfold let_in start in inl (refl, (e, refl))
      by_gates (ok u) (err e) p q = unfold let_in start in inl (refl, (e, refl))
      by_gates (ok u) (ok d) p q =
          unfold let_in in inr (record { unlocked = p; permitted = (d, q) }, authorized-Ends)

  ran-SentBy :
      (out : Result OperationResult × Run S)
      → Ends c kind interface value target out
      → out.1.sent ≢ []
      → (p : Plan) × IsPlan kind target (safe_value kind value) p
        × IsMeasured p out.1.log
        × SentBy p out.1.sent
  ran-SentBy (ok res, r) ends h = Transaction-SentBy ends h
  ran-SentBy (err e, r) ends h = absurd (h ends)

  -- When anything was sent, the lock of the session is open, controlled writes are enabled, and the
  -- interface is a physical port that the policy says is OPERABLE, at the guard and at the check.
  pub sent-gated :
      ran.1.sent ≢ []
      → (lock.is_unlocked ≡ true)
        × (controlled_writes_enabled stored ≡ true)
        × ((canonical : Text) × (normalize_interface interface ≡ ok canonical)
            × IsPort canonical
            × (state_for digest guard_host interface stored ≡ ok operable)
            × (state_for digest host interface stored ≡ ok operable))
  sent-gated h = elim ran-cases [
    | inl (e, f) ↦ absurd (h e)
    | inr (gates, ends) ↦
        from gates
          (let (p, is, measured, by) = ran-SentBy ran ends h in (p.canonical, is.for_target))
  ]
    where
      from :
          IsLetIn digest guard_host lock stored interface
          → (canonical : Text) × (target ≡ ok canonical)
          → (lock.is_unlocked ≡ true)
            × (controlled_writes_enabled stored ≡ true)
            × ((canonical : Text) × (normalize_interface interface ≡ ok canonical)
                × IsPort canonical
                × (state_for digest guard_host interface stored ≡ ok operable)
                × (state_for digest host interface stored ≡ ok operable))
      from gates (canonical, e) =
          let (d, permitted) = gates.permitted in
          let (enabled, port, normal, state) =
            operation_guard_sound digest guard_host interface d stored permitted in
          let (writable, valid, same) =
            (assert_operable_iff digest host interface canonical stored).0 e in
          (
            (Lock.operation_guard-open _ lock gates.unlocked).0,
            enabled,
            (
              canonical,
              ((assert_interface_writable_iff interface canonical).0 writable).0,
              assert_interface_writable-IsPort interface canonical writable,
              state,
              same,
            ),
          )

  -- When `run_operation` raises, nothing was sent.
  pub raised-silent : (e : Error) → ran.0 ≡ err e → ran.1.sent ≡ []
  raised-silent e h = elim ran-cases [ inl (q, f) ↦ q | inr (gates, ends) ↦ by_run ran refl ends ]
    where
      by_run :
          (out : Result OperationResult × Run S)
          → out ≡ ran
          → Ends c kind interface value target out
          → out.1.sent ≡ []
      by_run (ok res, r) q ends = absurd (cc (ap (λ x. x.0) q ∙ h))
      by_run (err x, r) q ends = ends

  -- What a returned result belongs to.
  returned :
      (res : OperationResult)
      → ran.0 ≡ ok res
      → Transaction kind target (safe_value kind value) res.outcome ran.1.sent ran.1.log
  returned res h = elim ran-cases [
    | inl (q, f) ↦ let (e, k) = f in absurd (cc (sym h ∙ k))
    | inr (gates, ends) ↦ by_run ran refl ends
  ]
    where
      by_run :
          (out : Result OperationResult × Run S)
          → out ≡ ran
          → Ends c kind interface value target out
          → Transaction kind target (safe_value kind value) res.outcome out.1.sent out.1.log
      by_run (ok res', r) q ends =
          let same : res' ≡ res = cc (ap (λ x. x.0) q ∙ h) in
          subst (λ x. Transaction kind target (safe_value kind value) x.outcome r.sent r.log) same
            ends
      by_run (err x, r) q ends = absurd (cc (ap (λ x. x.0) q ∙ h))

  -- What is configured: the commands of the operation on the checked target, sent once, and after them
  -- at most once the commands for the way back, which are those that the configuration gives that was
  -- read from the device before anything was sent.
  pub sent-SentBy :
      ran.1.sent ≢ []
      → (p : Plan) × IsPlan kind target (safe_value kind value) p
        × IsMeasured p ran.1.log
        × SentBy p ran.1.sent
  sent-SentBy h = elim ran-cases [
    | inl (q, f) ↦ absurd (h q)
    | inr (gates, ends) ↦ ran-SentBy ran ends h
  ]

  -- A result lists exactly the commands that were sent, in their order.
  pub commands-sent :
      (res : OperationResult) → ran.0 ≡ ok res → res.outcome.commands ≡ flatten ran.1.sent
  commands-sent res h = Transaction-commands (returned res h)

  -- Success means that the postcondition was met by what was read from the device: before, and nothing
  -- was sent, or behind the commands, which were sent once, and then the result asks for a save.
  pub success-Achieved :
      (res : OperationResult)
      → ran.0 ≡ ok res
      → res.outcome.status ≡ success
      → (p : Plan) × IsPlan kind target (safe_value kind value) p
        × IsMeasured p ran.1.log
        × Achieved p res.outcome ran.1.sent ran.1.log
  success-Achieved res h = Transaction-Achieved (returned res h)

  -- ROLLED_BACK means that the commands for the way back were sent after those of the operation, that IOS
  -- did not reject them, and that what was read from the device behind them shows the configuration
  -- that was read before anything was sent; no save is asked for.
  pub rolled_back-IsRestored :
      (res : OperationResult)
      → ran.0 ≡ ok res
      → res.outcome.status ≡ rolled_back
      → (p : Plan) × IsPlan kind target (safe_value kind value) p
        × IsMeasured p ran.1.log
        × (ran.1.sent ≡ forward p ∷ p.rollback_commands ∷ [])
        × IsRestored p ran.1.log
        × (res.outcome.requires_save ≡ false)
  rolled_back-IsRestored res h = Transaction-undone (returned res h)

  -- A blocked operation sent nothing, and asks for no save.
  pub blocked-silent :
      (res : OperationResult)
      → ran.0 ≡ ok res
      → res.outcome.status ≡ blocked
      → (ran.1.sent ≡ []) × (res.outcome.requires_save ≡ false)
  blocked-silent res h = Transaction-blocked (returned res h)
