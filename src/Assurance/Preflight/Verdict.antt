-- ===== src/Assurance/Preflight/Verdict.antt =====
-- What a preflight that lets a change through has established.
use switch_ops.Prelude.{
  ◌≡◌, refl, ap, ◌∙◌, sym, ◌↔◌, arith, Bool, true, false, Option, Result, ok, err, subst,
}
use switch_ops.Text.{Text}
use switch_ops.Policy.Model.{Stored, PolicyState, operable}
use switch_ops.Policy.Store.{state_for, controlled_writes_enabled}
use switch_ops.Operations.Lock
use switch_ops.Operations.Lock.{WriteLock}
use switch_ops.Operations.Catalogue.{OperationKind}
use switch_ops.Assurance.Model.{ChangePlan, AssuranceSnapshot, outcome_ready, ChangePreflight}
use switch_ops.Assurance.Preflight.{
  device_matches, is_operable, is_live, confirmed_path, check, control_check, checks_of, is_block,
  outcome_of, evaluate, evaluate_if, run_checks,
}

-- No condition that must hold for a change fails. The lock of the session is not among them.
pub record IsClear (digest : Text → Text) (host : Option Text) (stored : Stored) (plan : ChangePlan)
    (s : AssuranceSnapshot) : Type 0 where
  pub same_device : device_matches digest host plan ≡ true
  pub live : is_live s ≡ true
  pub present : s.target.present ≡ true
  pub permitted : state_for digest host plan.target_interface stored ≡ ok operable
  pub enabled : controlled_writes_enabled stored ≡ true
  pub reversible : s.configuration.rollback_representable ≡ true
  pub path_elsewhere : confirmed_path plan.step.kind s ≡ false

checks-clear :
    (m o w u : Bool) (kind : OperationKind) (s : AssuranceSnapshot)
    → (outcome_of (checks_of m o w u kind s) ≡ outcome_ready) ↔ (
        (m ≡ true)
        × (is_live s ≡ true)
        × (s.target.present ≡ true)
        × (o ≡ true)
        × (w ≡ true)
        × (s.configuration.rollback_representable ≡ true)
        × (confirmed_path kind s ≡ false))
unfolding checks_of outcome_of is_block check control_check
checks-clear m o w u kind s = ground arith

is_operable-eq : (state : PolicyState) → is_operable state ≡ true → state ≡ operable
unfolding is_operable
is_operable-eq state h = ground arith

module _ (digest : Text → Text) (host : Option Text) (stored : Stored) (lock : WriteLock)
    (plan : ChangePlan) (s : AssuranceSnapshot) where
  for_state :
      (state : PolicyState)
      → state_for digest host plan.target_interface stored ≡ ok state
      → (p : ChangePreflight) → evaluate digest host stored lock plan s state ≡ p
      → (p.outcome ≡ outcome_ready) ↔ IsClear digest host stored plan s
  unfolding evaluate
  for_state state q p e =
      let enabled = controlled_writes_enabled stored in
      let (there, back) =
        checks-clear (device_matches digest host plan) (is_operable state) enabled
          (Lock.unlocked enabled lock) plan.step.kind s in
      (
        (λ h.
            let (a, b, d, f, g, i, j) = there (ap (λ x. x.outcome) e ∙ h) in
            record {
              same_device = a;
              live = b;
              present = d;
              permitted = q ∙ ap (λ x. ok x) (is_operable-eq state f);
              enabled = g;
              reversible = i;
              path_elsewhere = j;
            }),
        (λ k.
            let same : state ≡ operable = cc (q, k.permitted) in
            ap (λ x. x.outcome) (sym e)
            ∙ back (
              k.same_device,
              k.live,
              k.present,
              subst (λ x. is_operable x ≡ true) (sym same) (unfold is_operable in refl),
              k.enabled,
              k.reversible,
              k.path_elsewhere,
            )),
      )

  -- A preflight is ready exactly when the plan is for the configured device, the session is live, the
  -- target is present and OPERABLE, controlled writes are enabled, the operation can be undone, and no
  -- disruptive operation would cut the control path. Warnings do not count, nor does the lock.
  pub run_checks-ready_iff :
      (p : ChangePreflight)
      → run_checks digest host stored lock plan s ≡ ok p
      → (p.outcome ≡ outcome_ready) ↔ IsClear digest host stored plan s
  unfolding run_checks
  run_checks-ready_iff p h = by_state (state_for digest host plan.target_interface stored) refl h
    where
      by_state :
          (state : Result PolicyState)
          → state_for digest host plan.target_interface stored ≡ state
          → evaluate_if digest host stored lock plan s state ≡ ok p
          → (p.outcome ≡ outcome_ready) ↔ IsClear digest host stored plan s
      by_state (err e) q h = unfold evaluate_if in absurd (cc)
      by_state (ok state) q h = for_state state q p (unfold evaluate_if in cc)

  -- The policy store that knows the interface lets the checks return.
  pub run_checks-returns :
      (state : PolicyState)
      → state_for digest host plan.target_interface stored ≡ ok state
      → (p : ChangePreflight) × (run_checks digest host stored lock plan s ≡ ok p)
  unfolding run_checks evaluate_if
  run_checks-returns state h = (evaluate digest host stored lock plan s state, rw h refl)
