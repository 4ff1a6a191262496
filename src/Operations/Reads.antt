-- ===== src/Operations/Reads.antt =====
-- What a transaction reads of the device, its plan and its result.
pub mod Ports
use switch_ops.Prelude.{
  Bool, true, false, Option, none, some, List, [], ◌∷◌, if◌then◌else◌, Result, ok, err, Error,
  value_error, other_error,
}
use switch_ops.Text.{Text, codes, text_eq, lower, replace}
use switch_ops.Models.{InterfaceStatus}
use switch_ops.Parsers.Interfaces.{parse_interface_status}
use switch_ops.Parsers.Poe.{PoePort, parse_poe}
use switch_ops.Registry.Actions.{sanitize_description}
use switch_ops.Operations.Config.{InterfaceConfig, interface_config}
use switch_ops.Operations.Catalogue.{OperationKind, set_description, needs_value}
use switch_ops.Operations.Exec.{
  Observed, OperationStatus, success, blocked, operation, AuditEntry, Client, audit, passed,
  failed_stage, Stage, Run, Exec, ◌>>=◌, pure, run_and_audit, begin, finish,
}

-- The arguments of `result`, and what it returns, without the messages and the times.
pub record Outcome : Type 0 where
  pub status : OperationStatus
  pub before : Option Observed
  pub after : Option Observed
  pub commands : List Text
  pub rolled_back : Option Bool
  pub backup_path : Option Text
  pub requires_save : Bool

pub record OperationResult : Type 0 where
  pub kind : OperationKind
  pub interface : Text
  pub outcome : Outcome
  pub stages : List Stage

abbrev pub refused : Outcome
refused = record {
  status = blocked;
  before = none;
  after = none;
  commands = [];
  rolled_back = none;
  backup_path = none;
  requires_save = false;
}

-- What the precheck has found out.
pub record Plan : Type 0 where
  pub kind : OperationKind
  pub interface : Text
  pub canonical : Text
  pub value : Option Text
  pub before_interface : InterfaceStatus
  pub before_poe : Option Text
  pub running_config : Text
  pub before_config : InterfaceConfig
  pub rollback_commands : List Text

unfoldable pub observe : InterfaceStatus → Option Text → Observed
observe i poe = record { status = i.status; description = i.name; poe = poe }

unfoldable pub before_state : Plan → Observed
unfolding observe
before_state p = observe p.before_interface p.before_poe

unfoldable pub is_success : OperationStatus → Bool
is_success success = true
is_success _ = false

unfoldable pub find_port : Text → List InterfaceStatus → Option InterfaceStatus
unfolding lower
find_port short [] = none
find_port short (i ∷ rest) =
    if text_eq (lower i.port) (lower short) then some i else find_port short rest

unfoldable pub find_poe : Text → List PoePort → Option Text
unfolding lower
find_poe short [] = none
find_poe short (p ∷ rest) =
    if text_eq (lower p.interface) (lower short) then some p.admin else find_poe short rest

unfoldable pub short_of : Text → Text
unfolding replace
short_of canonical = replace (codes "GigabitEthernet") (codes "Gi") canonical

unfoldable pub audit_entry : OperationKind → Outcome → AuditEntry
unfolding is_success
audit_entry kind o = record {
  action = operation kind o.status;
  commands = o.commands;
  success = is_success o.status;
  before_state = o.before;
  after_state = o.after;
}

-- What verification has read: the state after, and whether the postcondition is met.
pub record Seen : Type 0 where
  pub after : Option Observed
  pub is_met : Bool

unfoldable pub or_unseen : Result Seen → Seen
or_unseen (ok seen) = seen
or_unseen (err _) = record { after = none; is_met = false }

unfoldable pub or_false : Result Bool → Bool
or_false (ok b) = b
or_false (err _) = false

-- kind == "set_description"
unfoldable pub is_description : OperationKind → Bool
is_description set_description = true
is_description _ = false

unfoldable pub is_switchops_error : Error → Bool
is_switchops_error value_error = false
is_switchops_error other_error = false
is_switchops_error _ = true

unfoldable pub some_text : Result Text → Result (Option Text)
some_text (ok s) = ok (some s)
some_text (err e) = err e

-- The sanitized value, where the operation needs one; `value or ""` is sanitized.
unfoldable pub safe_value : OperationKind → Option Text → Result (Option Text)
unfolding needs_value sanitize_description some_text
safe_value kind value =
    if needs_value kind
    then some_text (sanitize_description (elim value [ none ↦ [] | some s ↦ s ]))
    else ok none

module _ {S : Type 0} (c : Client S) where
  -- A fault of the audit trail shows in its stage and changes nothing else.
  unfoldable pub result : OperationKind → Text → Outcome → Run S → OperationResult × Run S
  unfolding begin finish audit_entry
  result kind interface o r =
      let r1 = begin audit r in
      let (recorded, w) = c.record_audit (audit_entry kind o) r1.world in
      let r2 = finish (if recorded then passed else failed_stage) (record r1 { world = w }) in
      (record { kind = kind; interface = interface; outcome = o; stages = r2.stages }, r2)

  unfoldable pub read_interface : Text → Exec S (Option InterfaceStatus)
  unfolding ◌>>=◌ pure run_and_audit parse_interface_status find_port short_of
  read_interface canonical = do
    output ← run_and_audit c (codes "show_interfaces_status")
    pure (find_port (short_of canonical) (parse_interface_status output))

  unfoldable pub read_poe_state : Text → Exec S (Option Text)
  unfolding ◌>>=◌ pure run_and_audit parse_poe find_poe short_of
  read_poe_state canonical = do
    output ← run_and_audit c (codes "show_power_inline")
    pure (find_poe (short_of canonical) (parse_poe output))

  unfoldable pub poe_if : Bool → Text → Exec S (Option Text)
  unfolding read_poe_state pure
  poe_if wanted canonical = if wanted then read_poe_state canonical else pure none

  unfoldable pub read_config : Text → Exec S (Option InterfaceConfig)
  unfolding ◌>>=◌ pure run_and_audit interface_config
  read_config canonical = do
    output ← run_and_audit c (codes "show_running_config")
    pure (interface_config output canonical)

  unfoldable pub config_if : Bool → Text → Exec S (Option InterfaceConfig)
  unfolding read_config pure
  config_if wanted canonical = if wanted then read_config canonical else pure none
