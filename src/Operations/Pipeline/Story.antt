-- ===== src/Operations/Pipeline/Story.antt =====
-- What a transaction that has a plan sends, and how its result tells of it.
pub mod Looks
pub mod Steps
pub mod Gates
pub mod Ends
pub mod Contract
use mathlib.Core.List.{append_assoc}
use switch_ops.Prelude.{
  ◌≡◌, ap, ◌∙◌, All, true, false, Option, none, some, List, [], ◌∷◌, ◌++◌, Result, ok,
}
use switch_ops.Text.{Text}
use switch_ops.Models.{InterfaceStatus}
use switch_ops.Operations.Config.{InterfaceConfig}
use switch_ops.Operations.Catalogue.{
  is_poe, operation_commands, classify_ios_response, rollback_verified, postcondition_met,
}
use switch_ops.Operations.Exec.{
  Observed, success, failed, blocked, rolled_back, Call, configured, Run,
}
use switch_ops.Operations.Reads.{Outcome, Plan, observe, Seen, is_description}
use switch_ops.Operations.Pipeline.Readings.{IsReading, RowRead, PoeRead, ConfigReadIf, AllRead}

abbrev pub forward : Plan → List Text
forward p = operation_commands p.kind p.canonical p.value

-- Readings that meet the postcondition, the first of which is the state after.
pub record Observation (p : Plan) (after : Option Observed) (calls : List Call) : Type 0 where
  pub interface : InterfaceStatus
  pub poe : Option Text
  pub config : Option InterfaceConfig
  pub row : RowRead p.canonical (some interface) calls
  pub power : PoeRead (is_poe p.kind) p.canonical poe calls
  pub block : ConfigReadIf (is_description p.kind) p.canonical config calls
  pub meets : postcondition_met p.kind (some interface) poe p.value config ≡ true
  pub shown : after ≡ some (observe interface poe)

-- The commands of the operation were sent, and what was read behind them meets the postcondition.
pub record Observes (p : Plan) (after : Option Observed) (log : List Call) : Type 0 where
  pub early : List Call
  pub answer : Result Text
  pub later : List Call
  pub order : log ≡ early ++ configured (forward p) answer ∷ later
  pub quiet : All IsReading later
  pub seen : Observation p after later

-- Readings that show the configuration from before.
pub record Return (p : Plan) (calls : List Call) : Type 0 where
  pub interface : InterfaceStatus
  pub poe : Option Text
  pub config : InterfaceConfig
  pub read : AllRead (is_poe p.kind) p.canonical (some interface) poe (some config) calls
  pub back : rollback_verified p.kind p.before_config (some interface) poe (some config) ≡ true

-- The commands for the way back were sent, IOS did not reject them, and what was read behind them
-- shows the configuration from before.
pub record IsRestored (p : Plan) (log : List Call) : Type 0 where
  pub early : List Call
  pub output : Text
  pub later : List Call
  pub order : log ≡ early ++ configured p.rollback_commands (ok output) ∷ later
  pub accepted : classify_ios_response output ≡ none
  pub quiet : All IsReading later
  pub seen : Return p later

-- The six ends of a planned transaction: the outcome, and the command lists that were sent.
pub data Story (p : Plan) (o : Outcome) (sent : List (List Text)) (log : List Call) : Type 0 where
  unneeded :
      o.status ≡ success
      → postcondition_met p.kind
          (some p.before_interface)
          p.before_poe
          p.value
          (some p.before_config)
        ≡ true
      → o.commands ≡ []
      → o.requires_save ≡ false
      → sent ≡ []
      → Story p o sent log
  no_backup :
      o.status ≡ blocked
      → o.commands ≡ []
      → o.requires_save ≡ false
      → sent ≡ []
      → Story p o sent log
  not_accepted :
      o.status ≡ failed
      → o.rolled_back ≡ none
      → o.commands ≡ forward p
      → sent ≡ forward p ∷ []
      → Story p o sent log
  verified :
      o.status ≡ success
      → Observes p o.after log
      → o.commands ≡ forward p
      → o.requires_save ≡ true
      → sent ≡ forward p ∷ []
      → Story p o sent log
  undone :
      o.status ≡ rolled_back
      → IsRestored p log
      → o.rolled_back ≡ some true
      → o.commands ≡ forward p ++ p.rollback_commands
      → o.requires_save ≡ false
      → sent ≡ forward p ∷ p.rollback_commands ∷ []
      → Story p o sent log
  not_undone :
      o.status ≡ failed
      → o.rolled_back ≡ some false
      → o.commands ≡ forward p ++ p.rollback_commands
      → o.requires_save ≡ true
      → sent ≡ forward p ∷ p.rollback_commands ∷ []
      → Story p o sent log

-- What verification shows when it says that the postcondition is met.
abbrev pub IsSeen : Plan → Seen → List Call → Type 0
IsSeen p seen calls = seen.is_met ≡ true → Observation p seen.after calls

-- The log has grown.
abbrev pub Extends : List Call → List Call → Type 0
Extends log log' = (new : List Call) × (log' ≡ log ++ new)

pub Extends-trans : (a b d : List Call) → Extends a b → Extends b d → Extends a d
Extends-trans a b d (new, e) (more, f) =
    (new ++ more, f ∙ ap (λ l. l ++ more) e ∙ append_assoc a new more)

-- The commands of the operation are the last call.
abbrev pub Begun : Plan → List Call → Type 0
Begun p log =
    (early : List Call) × (answer : Result Text) × (log
      ≡ early ++ configured (forward p) answer ∷ [])

-- What a step tells, which begins and ends with these runs.
abbrev pub Told : {S : Type 0} → Plan → Outcome → Run S → Run S → Type 0
Told p o r r' = Story p o r'.sent r'.log × Extends r.log r'.log
