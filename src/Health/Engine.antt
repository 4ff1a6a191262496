-- ===== src/Health/Engine.antt =====
-- `evaluate_health`: the reasons in the order of the code, and the worst of them.
pub mod Verdict
pub mod Quiet
use switch_ops.Prelude.{
  ℕ, ◌+◌, ◌*◌, Bool, true, false, ◌&&◌, not, Option, none, some, List, [], ◌∷◌, ◌++◌, ltb, leb,
  ◌==◌, if◌then◌else◌, any,
}
use switch_ops.Text.{Text, codes, text_eq, lower, contains}
use switch_ops.Models.{InterfaceStatus}
use switch_ops.Health.Signals.{
  Severity, healthy, notice, attention, critical, rank, Thresholds, Memory, increased, wrapped,
  reset, Delta, speed_mbps, poe_active,
}

pub data Code : Type 0 where
  temperature_critical temperature_attention cpu_critical cpu_attention cpu_notice : Code
  memory_critical memory_attention memory_notice : Code
  interface_errors_increased interface_counter_reset uplink_down interface_link_down : Code
  link_speed_reduced half_duplex_negotiated poe_stopped partial_telemetry no_active_problems : Code

pub record HealthReason : Type 0 where
  pub code : Code
  pub severity : Severity
  pub interface : Option Text

pub record HealthAssessment : Type 0 where
  pub state : Severity
  pub reasons : List HealthReason
  pub based_on_history : Bool

-- `add` for the device, and for a port.
device : Code → Severity → List HealthReason
device code severity = record { code = code; severity = severity; interface = none } ∷ []

on_port : Text → Code → Severity → List HealthReason
on_port port code severity = record { code = code; severity = severity; interface = some port } ∷ []

unfoldable pub temperature_reasons : Text → List HealthReason
unfolding device
temperature_reasons state =
    if text_eq state (codes "RED")
    then device temperature_critical critical
    else if text_eq state (codes "YELLOW")
    then device temperature_attention attention
    else []

unfoldable pub cpu_reasons : Thresholds → Option ℕ → List HealthReason
unfolding device
cpu_reasons t none = []
cpu_reasons t (some cpu) =
    if leb t.cpu_critical cpu
    then device cpu_critical critical
    else if leb t.cpu_attention cpu
    then device cpu_attention attention
    else if leb t.cpu_notice cpu
    then device cpu_notice notice
    else []

-- The used share, in percent, is at least `pct`.
uses : ℕ → ℕ → ℕ → Bool
uses total used pct = leb (pct * total) (used * 100)

memory_used : Thresholds → ℕ → ℕ → List HealthReason
unfolding device uses
memory_used t total used =
    if uses total used t.memory_critical
    then device memory_critical critical
    else if uses total used t.memory_attention
    then device memory_attention attention
    else if uses total used t.memory_notice
    then device memory_notice notice
    else []

-- Nothing is said without a positive total and a used amount.
unfoldable pub memory_reasons : Thresholds → Memory → List HealthReason
unfolding memory_used
memory_reasons t memory = elim (memory.total) [
  | none ↦ []
  | some total ↦ elim (memory.used) [
    | none ↦ []
    | some used ↦ if total == 0 then [] else memory_used t total used
  ]
]

or_zero : Option ℕ → ℕ
or_zero none = 0
or_zero (some n) = n

error_severity : Thresholds → ℕ → Severity
error_severity t amount =
    if leb t.error_critical amount
    then critical
    else if leb t.error_attention amount
    then attention
    else notice

errors_of : Thresholds → Text → ℕ → List HealthReason
unfolding on_port error_severity
errors_of t port amount =
    if ltb 0 amount then on_port port interface_errors_increased (error_severity t amount) else []

counter_reasons : Thresholds → Delta → List HealthReason
unfolding errors_of on_port or_zero
counter_reasons t delta = elim (delta.counter_state) [
  | increased ↦ errors_of t (delta.port) (or_zero (delta.error_delta))
  | wrapped ↦ errors_of t (delta.port) (or_zero (delta.error_delta))
  | reset ↦ on_port (delta.port) interface_counter_reset notice
  | _ ↦ []
]

-- `interface_by_port`: the last interface of that name.
by_port : Text → List InterfaceStatus → Option InterfaceStatus
by_port port [] = none
by_port port (i ∷ rest) = elim (by_port port rest) [
  | some later ↦ some later
  | none ↦ if text_eq i.port port then some i else none
]

is_uplink : Option InterfaceStatus → Bool
unfolding lower contains
is_uplink none = false
is_uplink (some i) =
    let description = lower i.name in
    any (λ word. contains word description) (codes "uplink" ∷ codes "router" ∷ codes "gateway" ∷ [])

was : Text → Option Text → Bool
was s none = false
was s (some t) = text_eq t s

was_connected : Delta → Bool
unfolding was
was_connected delta = was (codes "connected") delta.status_before

is_connected : Delta → Bool
is_connected delta = text_eq delta.status_after (codes "connected")

link_reasons : List InterfaceStatus → Delta → List HealthReason
unfolding was_connected is_connected by_port is_uplink on_port
link_reasons interfaces delta =
    if was_connected delta && not (is_connected delta)
    then (if is_uplink (by_port delta.port interfaces)
        then on_port (delta.port) uplink_down critical
        else on_port (delta.port) interface_link_down notice)
    else []

slower : Option ℕ → Option ℕ → Bool
slower (some before) (some after) = ltb after before
slower _ _ = false

speed_reasons : Delta → List HealthReason
unfolding was_connected is_connected slower speed_mbps on_port
speed_reasons delta =
    if was_connected delta
      && is_connected delta
      && slower (speed_mbps delta.speed_before) (speed_mbps (some delta.speed_after))
    then on_port (delta.port) link_speed_reduced notice
    else []

duplex_reasons : Delta → List HealthReason
unfolding was_connected is_connected contains lower was on_port
duplex_reasons delta =
    if was_connected delta
      && is_connected delta
      && contains (codes "half") (lower delta.duplex_after)
      && not (was delta.duplex_after delta.duplex_before)
    then on_port (delta.port) half_duplex_negotiated attention
    else []

was_active : Option Text → Bool
unfolding poe_active
was_active none = false
was_active (some mode) = poe_active mode

poe_reasons : Delta → List HealthReason
unfolding was_active poe_active on_port
poe_reasons delta =
    if was_active delta.poe_before && not (poe_active delta.poe_after)
    then on_port (delta.port) poe_stopped notice
    else []

unfoldable pub delta_reasons : Thresholds → List InterfaceStatus → Delta → List HealthReason
unfolding counter_reasons link_reasons speed_reasons duplex_reasons poe_reasons
delta_reasons t interfaces delta =
    counter_reasons t delta
    ++ link_reasons interfaces delta
    ++ speed_reasons delta
    ++ duplex_reasons delta
    ++ poe_reasons delta

unfoldable pub all_delta_reasons :
    Thresholds → List InterfaceStatus → List Delta → List HealthReason
unfolding delta_reasons
all_delta_reasons t interfaces [] = []
all_delta_reasons t interfaces (delta ∷ deltas) =
    delta_reasons t interfaces delta ++ all_delta_reasons t interfaces deltas

-- `max(…, key=…)`: the first of the greatest rank.
unfoldable pub worst : Severity → List HealthReason → Severity
unfolding rank
worst so_far [] = so_far
worst so_far (r ∷ reasons) =
    worst (if ltb (rank so_far) (rank r.severity) then r.severity else so_far) reasons

unfoldable pub conclude : List HealthReason → Bool → HealthAssessment
unfolding worst device
conclude [] history = record {
  state = healthy;
  reasons = device no_active_problems healthy;
  based_on_history = history;
}
conclude (r ∷ reasons) history = record {
  state = worst r.severity reasons;
  reasons = r ∷ reasons;
  based_on_history = history;
}

has_history : Delta → Bool
has_history delta = elim (delta.status_before) [ none ↦ false | some _ ↦ true ]

-- All that is found, in the order of the code.
found :
    Thresholds
    → List InterfaceStatus
    → Text
    → Option ℕ
    → Memory
    → List Delta
    → Bool
    → List HealthReason
unfolding temperature_reasons cpu_reasons memory_reasons all_delta_reasons device
found t interfaces temperature cpu memory deltas complete =
    temperature_reasons temperature
    ++ cpu_reasons t cpu
    ++ memory_reasons t memory
    ++ all_delta_reasons t interfaces deltas
    ++ (if complete then [] else device partial_telemetry notice)

unfoldable pub evaluate_health :
    Thresholds
    → List InterfaceStatus
    → Text
    → Option ℕ
    → Memory
    → List Delta
    → Bool
    → HealthAssessment
unfolding found conclude has_history
evaluate_health t interfaces temperature cpu memory deltas complete =
    conclude (found t interfaces temperature cpu memory deltas complete) (any has_history deltas)
