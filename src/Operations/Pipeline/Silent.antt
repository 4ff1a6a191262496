-- ===== src/Operations/Pipeline/Silent.antt =====
-- Reading the device and writing a backup send no configuration and leave the stages alone.
use switch_ops.Prelude.{
  ◌≡◌, refl, subst, ◌∙◌, Bool, true, false, Option, none, some, arith, if◌then◌else◌, Result, ok,
  err,
}
use switch_ops.Text.{Text}
use switch_ops.Models.{InterfaceStatus}
use switch_ops.Registry.Actions.{resolve_read_command}
use switch_ops.Operations.Catalogue.{OperationKind, is_poe, rollback_commands}
use switch_ops.Operations.Config.{InterfaceConfig, interface_config}
use switch_ops.Operations.Exec.{
  Client, Run, Exec, continue, ◌>>=◌, pure, run_resolved, run_and_audit, backup_running_config,
}
use switch_ops.Operations.Reads.{
  Plan, read_interface, read_poe_state, poe_if, read_config, config_if,
}
use switch_ops.Operations.Change.{look}
use switch_ops.Operations.Pipeline.{with_config, with_row, capture}

-- `m` sends nothing and touches no stage, whether it returns or raises.
pub record Silent {S A : Type 0} (m : Exec S A) : Type 0 where
  pub sent : (r : Run S) → (m r).1.sent ≡ r.sent
  pub stages : (r : Run S) → (m r).1.stages ≡ r.stages

module _ {S A : Type 0} where
  pub Silent-pure : (a : A) → Silent {S = S} (pure a)
  unfolding pure
  Silent-pure a = record { sent = λ r. refl; stages = λ r. refl }

  pub Silent-if : (b : Bool) (m n : Exec S A) → Silent m → Silent n → Silent (if b then m else n)
  Silent-if true m n hm hn = hm
  Silent-if false m n hm hn = hn

module _ {S A B : Type 0} where
  continue-sent :
      (f : A → Exec S B)
      → ((a : A) → Silent (f a))
      → (a : Result A) (r : Run S) → (continue a f r).1.sent ≡ r.sent
  unfolding continue
  continue-sent f hf (ok a) r = (hf a).sent r
  continue-sent f hf (err e) r = refl

  continue-stages :
      (f : A → Exec S B)
      → ((a : A) → Silent (f a))
      → (a : Result A) (r : Run S) → (continue a f r).1.stages ≡ r.stages
  unfolding continue
  continue-stages f hf (ok a) r = (hf a).stages r
  continue-stages f hf (err e) r = refl

  pub Silent-bind :
      (m : Exec S A) (f : A → Exec S B) → Silent m → ((a : A) → Silent (f a)) → Silent (m >>= f)
  unfolding ◌>>=◌
  Silent-bind m f hm hf = record {
    sent = λ r. let (a, r') = m r in continue-sent f hf a r' ∙ hm.sent r;
    stages = λ r. let (a, r') = m r in continue-stages f hf a r' ∙ hm.stages r;
  }

  -- What a silent rest adds to an action.
  pub sent-bind :
      (m : Exec S A) (f : A → Exec S B)
      → ((a : A) → Silent (f a))
      → (r : Run S) → ((m >>= f) r).1.sent ≡ (m r).1.sent
  unfolding ◌>>=◌
  sent-bind m f hf r = let (a, r') = m r in continue-sent f hf a r'

  pub stages-bind :
      (m : Exec S A) (f : A → Exec S B)
      → ((a : A) → Silent (f a))
      → (r : Run S) → ((m >>= f) r).1.stages ≡ (m r).1.stages
  unfolding ◌>>=◌
  stages-bind m f hf r = let (a, r') = m r in continue-stages f hf a r'

module _ {S : Type 0} (c : Client S) where
  Silent-run_resolved :
      (symbol : Text) (command : Result Text) → Silent (run_resolved c symbol command)
  unfolding run_resolved
  Silent-run_resolved symbol (ok command) = record { sent = λ r. refl; stages = λ r. refl }
  Silent-run_resolved symbol (err e) = record { sent = λ r. refl; stages = λ r. refl }

  pub Silent-run_and_audit : (symbol : Text) → Silent (run_and_audit c symbol)
  unfolding run_and_audit
  Silent-run_and_audit symbol = Silent-run_resolved symbol (resolve_read_command symbol)

  pub Silent-backup : (text : Text) → Silent (backup_running_config c text)
  unfolding backup_running_config
  Silent-backup text = record { sent = λ r. refl; stages = λ r. refl }

  pub Silent-read_interface : (canonical : Text) → Silent (read_interface c canonical)
  unfolding read_interface
  Silent-read_interface canonical = search (Silent-pure, Silent-bind, Silent-run_and_audit)

  Silent-read_poe_state : (canonical : Text) → Silent (read_poe_state c canonical)
  unfolding read_poe_state
  Silent-read_poe_state canonical = search (Silent-pure, Silent-bind, Silent-run_and_audit)

  pub Silent-poe_if : (wanted : Bool) (canonical : Text) → Silent (poe_if c wanted canonical)
  unfolding poe_if
  Silent-poe_if wanted canonical = search (Silent-pure, Silent-if, Silent-read_poe_state)

  pub Silent-read_config : (canonical : Text) → Silent (read_config c canonical)
  unfolding read_config
  Silent-read_config canonical = search (Silent-pure, Silent-bind, Silent-run_and_audit)

  pub Silent-config_if : (wanted : Bool) (canonical : Text) → Silent (config_if c wanted canonical)
  unfolding config_if
  Silent-config_if wanted canonical = search (Silent-pure, Silent-if, Silent-read_config)

  pub Silent-look : (p : Plan) → Silent (look c p)
  unfolding look
  Silent-look p =
      search (Silent-pure, Silent-bind, Silent-read_interface, Silent-poe_if, Silent-config_if)

  Silent-with_row :
      (kind : OperationKind) (interface canonical : Text) (value poe : Option Text)
      (found : Option InterfaceStatus)
      → Silent (with_row c kind interface canonical value poe found)
  unfolding with_row
  Silent-with_row kind interface canonical value poe none = search (Silent-pure)
  Silent-with_row kind interface canonical value poe (some before) =
      search (Silent-pure, Silent-bind, Silent-run_and_audit)

  pub Silent-capture :
      (kind : OperationKind) (interface canonical : Text) (value : Option Text)
      → Silent (capture c kind interface canonical value)
  unfolding capture
  Silent-capture kind interface canonical value =
      search (Silent-bind, Silent-read_interface, Silent-poe_if, Silent-with_row)

-- What a plan that was captured says: it is for this operation, and it can be undone.
pub record IsCaptured (kind : OperationKind) (interface canonical : Text) (value : Option Text)
    (p : Plan) : Type 0 where
  pub same_kind : p.kind ≡ kind
  pub same_interface : p.interface ≡ interface
  pub same_target : p.canonical ≡ canonical
  pub same_value : p.value ≡ value
  pub undo : rollback_commands kind canonical p.before_config ≡ some p.rollback_commands

with_config-IsCaptured :
    (kind : OperationKind) (interface canonical : Text) (value poe : Option Text)
    (before : InterfaceStatus) (running : Text) (config : Option InterfaceConfig) (p : Plan)
    → with_config kind interface canonical value poe before running config ≡ some p
    → IsCaptured kind interface canonical value p
unfolding with_config
with_config-IsCaptured kind interface canonical value poe before running none p h = absurd (cc)
with_config-IsCaptured kind interface canonical value poe before running (some config) p h =
    ground arith

-- `m` yields only values with `P`.
pub record Yields {S A : Type 0} (P : A → Type 0) (m : Exec S A) : Type 0 where
  pub at : (r : Run S) (a : A) → (m r).0 ≡ ok a → P a

module _ {S B : Type 0} {P : B → Type 0} where
  pub Yields-pure : (b : B) → P b → Yields {S = S} P (pure b)
  unfolding pure
  Yields-pure b h = record { at = λ r a e. let q : b ≡ a = cc e in subst P q h }

module _ {S A B : Type 0} {P : B → Type 0} where
  pub Yields-bind :
      (m : Exec S A) (f : A → Exec S B) → ((a : A) → Yields P (f a)) → Yields P (m >>= f)
  unfolding ◌>>=◌ continue
  Yields-bind m f hf = record { at = λ r b e. let (a, r') = m r in from a r' b e }
    where
      from : (a : Result A) (r' : Run S) (b : B) → (continue a f r').0 ≡ ok b → P b
      from (ok a) r' b e = (hf a).at r' b e
      from (err x) r' b e = absurd (cc)

abbrev CapturedIf : OperationKind → Text → Text → Option Text → Option Plan → Type 0
CapturedIf kind interface canonical value none = Unit
CapturedIf kind interface canonical value (some p) = IsCaptured kind interface canonical value p

module _ {S : Type 0} (c : Client S) where
  Yields-with_row :
      (kind : OperationKind) (interface canonical : Text) (value poe : Option Text)
      (found : Option InterfaceStatus)
      → Yields
          (CapturedIf kind interface canonical value)
          (with_row c kind interface canonical value poe found)
  unfolding with_row
  Yields-with_row kind interface canonical value poe none = Yields-pure none tt
  Yields-with_row kind interface canonical value poe (some before) =
      Yields-bind _ _ λ running. Yields-pure _ (captured running _ refl)
    where
      captured :
          (running : Text) (o : Option Plan)
          → with_config kind interface canonical value poe before running
              (interface_config running canonical)
            ≡ o
          → CapturedIf kind interface canonical value (
              with_config kind interface canonical value poe before running
                (interface_config running canonical))
      captured running none e = rw e tt
      captured running (some p) e =
          rw e (with_config-IsCaptured kind interface canonical value poe before running _ p e)

  pub capture-IsCaptured :
      (kind : OperationKind) (interface canonical : Text) (value : Option Text) (r : Run S)
      (p : Plan)
      → (capture c kind interface canonical value r).0 ≡ ok (some p)
      → IsCaptured kind interface canonical value p
  unfolding capture
  capture-IsCaptured kind interface canonical value r p e =
      (Yields-bind (read_interface c canonical) _ λ found.
          Yields-bind (poe_if c (is_poe kind) canonical) _
            λ poe. Yields-with_row kind interface canonical value poe found).at
        r (some p) e
