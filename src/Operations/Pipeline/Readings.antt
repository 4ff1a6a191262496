-- ===== src/Operations/Pipeline/Readings.antt =====
-- What was read from the device, in the log of the calls.
pub mod Logged
use switch_ops.Prelude.{
  ◌≡◌, ◌⊎◌, inl, inr, Bool, true, false, Option, none, some, List, [], ◌∷◌, ◌++◌, ok,
}
use switch_ops.Text.{Text, codes}
use switch_ops.Models.{InterfaceStatus}
use switch_ops.Parsers.Interfaces.{parse_interface_status}
use switch_ops.Parsers.Poe.{parse_poe}
use switch_ops.Operations.Config.{InterfaceConfig, interface_config}
use switch_ops.Operations.Exec.{Call, asked, configured, ◌>>=◌}
use switch_ops.Operations.Catalogue.{OperationKind, is_poe}
use switch_ops.Operations.Reads.{Plan, find_port, find_poe, short_of}

-- The device answered a command with a text, among these calls.
abbrev pub Heard : Text → Text → List Call → Type 0
Heard symbol output [] = true ≡ false
Heard symbol output (call ∷ calls) = (call ≡ asked symbol (ok output)) ⊎ Heard symbol output calls

pub Heard-front :
    (symbol output : Text) (front back : List Call)
    → Heard symbol output front
    → Heard symbol output (front ++ back)
Heard-front symbol output [] back h = absurd (cc (h))
Heard-front symbol output (call ∷ front) back (inl e) = inl e
Heard-front symbol output (call ∷ front) back (inr h) = inr (Heard-front symbol output front back h)

pub Heard-back :
    (symbol output : Text) (front back : List Call)
    → Heard symbol output back
    → Heard symbol output (front ++ back)
Heard-back symbol output [] back h = h
Heard-back symbol output (call ∷ front) back h = inr (Heard-back symbol output front back h)

-- A call that configures nothing.
abbrev pub IsReading : Call → Type 0
IsReading (asked symbol output) = Unit
IsReading (configured commands output) = true ≡ false

-- The row of the interface in a status table that the device answered with.
abbrev pub RowRead : Text → Option InterfaceStatus → List Call → Type 0
RowRead canonical row calls =
    (output : Text) × Heard (codes "show_interfaces_status") output calls
    × (row ≡ find_port (short_of canonical) (parse_interface_status output))

-- The power of the interface, where it is read.
abbrev pub PoeRead : Bool → Text → Option Text → List Call → Type 0
PoeRead true canonical poe calls =
    (output : Text) × Heard (codes "show_power_inline") output calls
    × (poe ≡ find_poe (short_of canonical) (parse_poe output))
PoeRead false canonical poe calls = poe ≡ none

abbrev pub ConfigRead : Text → Option InterfaceConfig → List Call → Type 0
ConfigRead canonical config calls =
    (output : Text) × Heard (codes "show_running_config") output calls
    × (config ≡ interface_config output canonical)

-- The configuration of the interface, where it is read.
abbrev pub ConfigReadIf : Bool → Text → Option InterfaceConfig → List Call → Type 0
ConfigReadIf true canonical config calls = ConfigRead canonical config calls
ConfigReadIf false canonical config calls = config ≡ none

pub RowRead-back :
    (canonical : Text) (row : Option InterfaceStatus) (front back : List Call)
    → RowRead canonical row back
    → RowRead canonical row (front ++ back)
RowRead-back canonical row front back (output, h, e) = (output, Heard-back _ output front back h, e)

pub RowRead-front :
    (canonical : Text) (row : Option InterfaceStatus) (front back : List Call)
    → RowRead canonical row front
    → RowRead canonical row (front ++ back)
RowRead-front canonical row front back (output, h, e) =
    (output, Heard-front _ output front back h, e)

pub PoeRead-front :
    (wanted : Bool) (canonical : Text) (poe : Option Text) (front back : List Call)
    → PoeRead wanted canonical poe front
    → PoeRead wanted canonical poe (front ++ back)
PoeRead-front true canonical poe front back (output, h, e) =
    (output, Heard-front _ output front back h, e)
PoeRead-front false canonical poe front back h = h

pub PoeRead-back :
    (wanted : Bool) (canonical : Text) (poe : Option Text) (front back : List Call)
    → PoeRead wanted canonical poe back
    → PoeRead wanted canonical poe (front ++ back)
PoeRead-back true canonical poe front back (output, h, e) =
    (output, Heard-back _ output front back h, e)
PoeRead-back false canonical poe front back h = h

pub ConfigRead-front :
    (canonical : Text) (config : Option InterfaceConfig) (front back : List Call)
    → ConfigRead canonical config front
    → ConfigRead canonical config (front ++ back)
ConfigRead-front canonical config front back (output, h, e) =
    (output, Heard-front _ output front back h, e)

pub ConfigRead-back :
    (canonical : Text) (config : Option InterfaceConfig) (front back : List Call)
    → ConfigRead canonical config back
    → ConfigRead canonical config (front ++ back)
ConfigRead-back canonical config front back (output, h, e) =
    (output, Heard-back _ output front back h, e)

pub ConfigReadIf-back :
    (wanted : Bool) (canonical : Text) (config : Option InterfaceConfig) (front back : List Call)
    → ConfigReadIf wanted canonical config back
    → ConfigReadIf wanted canonical config (front ++ back)
ConfigReadIf-back true canonical config front back h = ConfigRead-back canonical config front back h
ConfigReadIf-back false canonical config front back h = h

-- The row, the power and the configuration that were read, all in these calls.
abbrev pub AllRead :
    Bool → Text → Option InterfaceStatus → Option Text → Option InterfaceConfig → List Call → Type 0
AllRead wanted canonical row poe config calls =
    RowRead canonical row calls
    × PoeRead wanted canonical poe calls
    × ConfigRead canonical config calls

-- The state that a plan starts from was read in these calls.
abbrev pub Measured : OperationKind → Text → Plan → List Call → Type 0
Measured kind canonical p calls =
    AllRead (is_poe kind) canonical (some p.before_interface) p.before_poe (some p.before_config)
      calls
