-- ===== src/Health/Engine/Quiet.antt =====
-- What is no fault: a first observation, and a counter that does not move.
use switch_ops.Prelude.{
  ℕ, ◌≡◌, ◌⊎◌, inl, inr, refl, Bool, false, Option, none, List, [], ◌∷◌, All, any,
}
use switch_ops.Text.{Text}
use switch_ops.Models.{InterfaceStatus}
use switch_ops.Health.Signals.{Thresholds, Memory, first, unchanged, Delta}
use switch_ops.Health.Engine.{
  HealthReason, counter_reasons, link_reasons, speed_reasons, duplex_reasons, poe_reasons,
  was_connected, was_active, was, delta_reasons, all_delta_reasons, conclude, found, has_history,
  evaluate_health,
}

-- Nothing was observed before, or the counter has not moved since.
pub record IsFirst (delta : Delta) : Type 0 where
  pub still : (delta.counter_state ≡ first) ⊎ (delta.counter_state ≡ unchanged)
  pub no_status : delta.status_before ≡ none
  pub no_poe : delta.poe_before ≡ none

counter_reasons-still :
    (t : Thresholds) (delta : Delta)
    → (delta.counter_state ≡ first) ⊎ (delta.counter_state ≡ unchanged)
    → counter_reasons t delta ≡ []
unfolding counter_reasons
counter_reasons-still t delta (inl e) = rw e refl
counter_reasons-still t delta (inr e) = rw e refl

delta_reasons-first :
    (t : Thresholds) (interfaces : List InterfaceStatus) (delta : Delta)
    → IsFirst delta
    → delta_reasons t interfaces delta ≡ []
unfolding delta_reasons link_reasons speed_reasons duplex_reasons poe_reasons was_connected
    was_active was
delta_reasons-first t interfaces delta h =
    let s = h.no_status in
    let p = h.no_poe in let c = counter_reasons-still t delta h.still in simp (c, s, p) refl

all_delta_reasons-first :
    (t : Thresholds) (interfaces : List InterfaceStatus) (deltas : List Delta)
    → All IsFirst deltas
    → all_delta_reasons t interfaces deltas ≡ []
unfolding all_delta_reasons
all_delta_reasons-first t interfaces [] h = refl
all_delta_reasons-first t interfaces (delta ∷ deltas) h =
    rw (delta_reasons-first t interfaces delta h.0)
      (all_delta_reasons-first t interfaces deltas h.1)

-- The state and the reasons do not depend on the history.
conclude-history :
    (reasons : List HealthReason) (a b : Bool)
    → ((conclude reasons a).state ≡ (conclude reasons b).state)
      × ((conclude reasons a).reasons ≡ (conclude reasons b).reasons)
unfolding conclude
conclude-history [] a b = (refl, refl)
conclude-history (r ∷ reasons) a b = (refl, refl)

found-first :
    (t : Thresholds) (interfaces : List InterfaceStatus) (temperature : Text) (cpu : Option ℕ)
    (memory : Memory) (deltas : List Delta) (complete : Bool)
    → All IsFirst deltas
    → found t interfaces temperature cpu memory deltas complete
      ≡ found t interfaces temperature cpu memory [] complete
unfolding found
found-first t interfaces temperature cpu memory deltas complete h =
    rw (all_delta_reasons-first t interfaces deltas h) refl

-- Deltas of first observations, and of counters that have not moved on ports that were not seen
-- before, change nothing: state and reasons are those without any delta, whatever the counters show.
pub evaluate_health-first :
    (t : Thresholds) (interfaces : List InterfaceStatus) (temperature : Text) (cpu : Option ℕ)
    (memory : Memory) (deltas : List Delta) (complete : Bool)
    → All IsFirst deltas
    → let a = evaluate_health t interfaces temperature cpu memory deltas complete in
      let b = evaluate_health t interfaces temperature cpu memory [] complete in
      (a.state ≡ b.state) × (a.reasons ≡ b.reasons)
unfolding evaluate_health
evaluate_health-first t interfaces temperature cpu memory deltas complete h =
    rw (found-first t interfaces temperature cpu memory deltas complete h) (
      conclude-history (found t interfaces temperature cpu memory [] complete)
        (any has_history deltas) false)
