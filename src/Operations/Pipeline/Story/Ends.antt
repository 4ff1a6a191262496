-- ===== src/Operations/Pipeline/Story/Ends.antt =====
-- What each end of a transaction tells.
use mathlib.Core.List.{flatten, append-nil}
use switch_ops.Prelude.{
  ◌≡◌, ◌≢◌, sym, ap, ◌∙◌, ◌⊎◌, inl, inr, true, false, Option, some, List, [], ◌∷◌, ◌++◌, Result, ok,
}
use switch_ops.Text.{Text}
use switch_ops.Operations.Catalogue.{OperationKind, rollback_commands, postcondition_met}
use switch_ops.Operations.Exec.{Call, success, blocked, rolled_back}
use switch_ops.Operations.Reads.{Outcome, Plan}
use switch_ops.Operations.Pipeline.Story.{
  forward, Observes, IsRestored, Story, unneeded, no_backup, not_accepted, verified, undone,
  not_undone,
}
use switch_ops.Operations.Pipeline.Story.Gates.{IsMeasured, Transaction, not_begun, planned}

-- `p` is a plan for the operation, on its target, and its rollback commands can undo it.
pub record IsPlan (kind : OperationKind) (target : Result Text) (value : Result (Option Text))
    (p : Plan) : Type 0 where
  pub for_target : target ≡ ok p.canonical
  pub for_value : value ≡ ok p.value
  pub for_kind : p.kind ≡ kind
  pub undo : rollback_commands p.kind p.canonical p.before_config ≡ some p.rollback_commands

-- The commands of the operation, and after them perhaps those that undo it.
abbrev pub SentBy : Plan → List (List Text) → Type 0
SentBy p sent = (sent ≡ forward p ∷ []) ⊎ (sent ≡ forward p ∷ p.rollback_commands ∷ [])

-- What a reported success rests on: the state was there, or it was made and then observed.
abbrev pub Achieved : Plan → Outcome → List (List Text) → List Call → Type 0
Achieved p o sent log =
    ((sent ≡ [])
      × (postcondition_met p.kind (some p.before_interface) p.before_poe p.value
            (some p.before_config)
          ≡ true))
    ⊎ ((sent ≡ forward p ∷ []) × Observes p o.after log × (o.requires_save ≡ true))

module _ {kind : OperationKind} {target : Result Text} {value : Result (Option Text)} {o : Outcome}
    {sent : List (List Text)} {log : List Call} where
  pub Transaction-SentBy :
      Transaction kind target value o sent log
      → sent ≢ []
      → (p : Plan) × IsPlan kind target value p × IsMeasured p log × SentBy p sent
  Transaction-SentBy (not_begun a b d e) h = absurd (h e)
  Transaction-SentBy (planned p a b d u m s) h =
      (p, record { for_target = a; for_value = b; for_kind = d; undo = u }, m, by_story s)
    where
      by_story : Story p o sent log → SentBy p sent
      by_story (unneeded x y z k e) = absurd (h e)
      by_story (no_backup x y z e) = absurd (h e)
      by_story (not_accepted x y z e) = inl e
      by_story (verified x y z k e) = inl e
      by_story (undone x r y z k e) = inr e
      by_story (not_undone x y z k e) = inr e

  pub Transaction-commands : Transaction kind target value o sent log → o.commands ≡ flatten sent
  unfolding flatten
  Transaction-commands (not_begun a b d e) = rw e b
  Transaction-commands (planned p a b d u m s) = by_story s
    where
      by_story : Story p o sent log → o.commands ≡ flatten sent
      by_story (unneeded x y z k e) = rw e z
      by_story (no_backup x y z e) = rw e y
      by_story (not_accepted x y z e) = rw e (z ∙ sym (append-nil (forward p)))
      by_story (verified x y z k e) = rw e (z ∙ sym (append-nil (forward p)))
      by_story (undone x r y z k e) =
          rw e (z ∙ ap (λ l. forward p ++ l) (sym (append-nil p.rollback_commands)))
      by_story (not_undone x y z k e) =
          rw e (z ∙ ap (λ l. forward p ++ l) (sym (append-nil p.rollback_commands)))

  pub Transaction-Achieved :
      Transaction kind target value o sent log
      → o.status ≡ success
      → (p : Plan) × IsPlan kind target value p × IsMeasured p log × Achieved p o sent log
  Transaction-Achieved (not_begun a b d e) h = absurd (cc)
  Transaction-Achieved (planned p a b d u m s) h =
      (p, record { for_target = a; for_value = b; for_kind = d; undo = u }, m, by_story s)
    where
      by_story : Story p o sent log → Achieved p o sent log
      by_story (unneeded x y z k e) = inl (e, y)
      by_story (no_backup x y z e) = absurd (cc)
      by_story (not_accepted x y z e) = absurd (cc)
      by_story (verified x y z k e) = inr (e, y, k)
      by_story (undone x r y z k e) = absurd (cc)
      by_story (not_undone x y z k e) = absurd (cc)

  pub Transaction-undone :
      Transaction kind target value o sent log
      → o.status ≡ rolled_back
      → (p : Plan) × IsPlan kind target value p
        × IsMeasured p log
        × (sent ≡ forward p ∷ p.rollback_commands ∷ [])
        × IsRestored p log
        × (o.requires_save ≡ false)
  Transaction-undone (not_begun a b d e) h = absurd (cc)
  Transaction-undone (planned p a b d u m s) h =
      let (e, r, k) = by_story s in
      (p, record { for_target = a; for_value = b; for_kind = d; undo = u }, m, e, r, k)
    where
      by_story :
          Story p o sent log
          → (sent ≡ forward p ∷ p.rollback_commands ∷ [])
            × IsRestored p log
            × (o.requires_save ≡ false)
      by_story (unneeded x y z k e) = absurd (cc)
      by_story (no_backup x y z e) = absurd (cc)
      by_story (not_accepted x y z e) = absurd (cc)
      by_story (verified x y z k e) = absurd (cc)
      by_story (undone x r y z k e) = (e, r, k)
      by_story (not_undone x y z k e) = absurd (cc)

  pub Transaction-blocked :
      Transaction kind target value o sent log
      → o.status ≡ blocked
      → (sent ≡ []) × (o.requires_save ≡ false)
  Transaction-blocked (not_begun a b d e) h = (e, d)
  Transaction-blocked (planned p a b d u m s) h = by_story s
    where
      by_story : Story p o sent log → (sent ≡ []) × (o.requires_save ≡ false)
      by_story (unneeded x y z k e) = absurd (cc)
      by_story (no_backup x y z e) = (e, z)
      by_story (not_accepted x y z e) = absurd (cc)
      by_story (verified x y z k e) = absurd (cc)
      by_story (undone x r y z k e) = absurd (cc)
      by_story (not_undone x y z k e) = absurd (cc)
