-- ===== src/Operations/Catalogue.antt =====
-- The operations, their commands and their inverses, what IOS answers, and the postconditions.
use switch_ops.Prelude.{
  ◌≡◌, refl, Bool, true, false, ◌&&◌, ◌||◌, not, Option, none, some, List, [], ◌∷◌, ◌++◌, map, ◌==◌,
  if◌then◌else◌, any, ok, err,
}
use switch_ops.Text.{
  Text, codes, text_eq, is_space, lower, lstrip, strip, starts_with, contains, replace,
}
use switch_ops.Text.Lines.{splitlines}
use switch_ops.Models.{InterfaceStatus}
use switch_ops.Registry.Actions.{sanitize_description, iface_mark, value_mark}
use switch_ops.Operations.Config.{InterfaceConfig}

pub data OperationKind : Type 0 where
  admin_up admin_down poe_auto poe_never set_description : OperationKind

-- `config_lines` and `needs_value` of `OPERATIONS`.
unfoldable pub config_lines : OperationKind → List Text
config_lines admin_up = codes "interface {iface}" ∷ codes "no shutdown" ∷ []
config_lines admin_down = codes "interface {iface}" ∷ codes "shutdown" ∷ []
config_lines poe_auto = codes "interface {iface}" ∷ codes "power inline auto" ∷ []
config_lines poe_never = codes "interface {iface}" ∷ codes "power inline never" ∷ []
config_lines set_description = codes "interface {iface}" ∷ codes "description {value}" ∷ []

unfoldable pub needs_value : OperationKind → Bool
needs_value set_description = true
needs_value _ = false

-- kind.startswith("poe_")
unfoldable pub is_poe : OperationKind → Bool
is_poe poe_auto = true
is_poe poe_never = true
is_poe _ = false

or_empty : Option Text → Text
or_empty none = []
or_empty (some s) = s

render : Text → Option Text → Text → Text
unfolding replace contains or_empty
render canonical value line =
    let rendered = replace iface_mark canonical line in
    if contains value_mark rendered then replace value_mark (or_empty value) rendered else rendered

-- The commands that an operation sends.
unfoldable pub operation_commands : OperationKind → Text → Option Text → List Text
unfolding render config_lines
operation_commands kind canonical value =
    codes "configure terminal" ∷ map (render canonical value) (config_lines kind)
    ++ codes "end" ∷ []

-- The alternatives of `_IOS_ERROR`, in lower case.
ios_errors : List Text
ios_errors =
    codes "invalid input"
    ∷ codes "incomplete command"
    ∷ codes "ambiguous command"
    ∷ codes "unrecognized command"
    ∷ codes "authorization failed"
    ∷ codes "permission denied"
    ∷ codes "command failed"
    ∷ codes "command authorization failed"
    ∷ codes "error"
    ∷ codes "bad mask"
    ∷ codes "cannot"
    ∷ codes "not enough"
    ∷ codes "unable to"
    ∷ []

-- `%\s*(?:...)` somewhere in the line, without regard to case.
has_ios_error : Text → Bool
unfolding ios_errors lower lstrip is_space
has_ios_error [] = false
has_ios_error (c ∷ s) =
    (c == b'%' && any (λ e. starts_with e (lower (lstrip s))) ios_errors) || has_ios_error s

first_error : List Text → Option Text
unfolding has_ios_error strip
first_error [] = none
first_error (line ∷ rest) =
    let later = first_error rest in if has_ios_error line then some (strip line) else later

-- The offending line when IOS rejected something.
unfoldable pub classify_ios_response : Text → Option Text
unfolding splitlines first_error
classify_ios_response output = first_error (splitlines output)

restore_admin : InterfaceConfig → Text
restore_admin before = if before.shutdown then codes "shutdown" else codes "no shutdown"

restore_poe : InterfaceConfig → Option Text
restore_poe before =
    if text_eq before.poe_admin (codes "auto") || text_eq before.poe_admin (codes "never")
    then some (codes "power inline " ++ before.poe_admin)
    else none

restore_description : Text → Option Text
unfolding sanitize_description
restore_description [] = some (codes "no description")
restore_description (c ∷ s) = elim (sanitize_description (c ∷ s)) [
  | ok old ↦ some (codes "description " ++ old)
  | err _ ↦ none
]

-- The line that restores the observed state, if the small vocabulary has one.
restore_line : OperationKind → InterfaceConfig → Option Text
unfolding restore_admin restore_poe restore_description
restore_line admin_up before = some (restore_admin before)
restore_line admin_down before = some (restore_admin before)
restore_line poe_auto before = restore_poe before
restore_line poe_never before = restore_poe before
restore_line set_description before = restore_description before.description

unfoldable pub rollback_commands : OperationKind → Text → InterfaceConfig → Option (List Text)
unfolding restore_line
rollback_commands kind canonical before = elim (restore_line kind before) [
  | none ↦ none
  | some restore ↦
      some (
        codes "configure terminal" ∷ (codes "interface " ++ canonical) ∷ restore ∷ codes "end" ∷ [])
]

bool_eq : Bool → Bool → Bool
bool_eq true b = b
bool_eq false b = not b

verified_by : OperationKind → InterfaceConfig → Option Text → InterfaceConfig → Bool
unfolding bool_eq or_empty lower strip
verified_by admin_up before poe restored = bool_eq restored.shutdown before.shutdown
verified_by admin_down before poe restored = bool_eq restored.shutdown before.shutdown
verified_by poe_auto before poe restored =
    text_eq (lower (strip (or_empty poe))) before.poe_admin
    && text_eq restored.poe_admin before.poe_admin
verified_by poe_never before poe restored =
    text_eq (lower (strip (or_empty poe))) before.poe_admin
    && text_eq restored.poe_admin before.poe_admin
verified_by set_description before poe restored = text_eq restored.description before.description

unfoldable pub rollback_verified :
    OperationKind
    → InterfaceConfig
    → Option InterfaceStatus
    → Option Text
    → Option InterfaceConfig
    → Bool
unfolding verified_by
rollback_verified kind before (some interface) poe (some restored) =
    verified_by kind before poe restored
rollback_verified kind before none poe config = false
rollback_verified kind before (some interface) poe none = false

observed_description : InterfaceStatus → Option InterfaceConfig → Text
observed_description interface none = interface.name
observed_description interface (some config) = config.description

-- Did the device end up in the state that the operation intended? (Without the explanation.)
met : OperationKind → InterfaceStatus → Option Text → Option Text → Option InterfaceConfig → Bool
unfolding lower strip or_empty observed_description
met admin_down interface poe value config =
    text_eq (lower (strip interface.status)) (codes "disabled")
met admin_up interface poe value config =
    not (text_eq (lower (strip interface.status)) (codes "disabled"))
met poe_auto interface poe value config = text_eq (lower (strip (or_empty poe))) (codes "auto")
met poe_never interface poe value config = text_eq (lower (strip (or_empty poe))) (codes "never")
met set_description interface poe value config =
    text_eq (strip (observed_description interface config)) (strip (or_empty value))

unfoldable pub postcondition_met :
    OperationKind
    → Option InterfaceStatus
    → Option Text
    → Option Text
    → Option InterfaceConfig
    → Bool
unfolding met
postcondition_met kind none poe value config = false
postcondition_met kind (some interface) poe value config = met kind interface poe value config

rejected :
    classify_ios_response (codes "sw(config)#foo\n   ^\n% Invalid input detected at '^' marker.\n")
    ≡ some (codes "% Invalid input detected at '^' marker.")
unfolding classify_ios_response is_space
rejected = refl

accepted : classify_ios_response (codes "sw(config-if)#shutdown\n100% done\n") ≡ none
unfolding classify_ios_response is_space
accepted = refl
