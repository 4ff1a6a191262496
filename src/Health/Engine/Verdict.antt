-- ===== src/Health/Engine/Verdict.antt =====
-- The verdict of `evaluate_health` and its reasons.
use switch_ops.Prelude.{
  ℕ, ◌≤◌, ◌≡◌, ◌⊎◌, inl, inr, refl, arith, Bool, Option, some, List, [], ◌∷◌, ltb, All, any,
  Bool-cases,
}
use switch_ops.Text.{Text}
use switch_ops.Models.{InterfaceStatus}
use switch_ops.Health.Signals.{Severity, healthy, rank, Thresholds, Memory, Delta}
use switch_ops.Health.Engine.{
  HealthReason, HealthAssessment, cpu_reasons, worst, conclude, found, has_history, evaluate_health,
}

-- A reason of the list has the severity.
abbrev pub Has : Severity → List HealthReason → Type 0
Has s [] = ⊥
Has s (r ∷ reasons) = (r.severity ≡ s) ⊎ Has s reasons

abbrev AtMost : Severity → HealthReason → Type 0
AtMost s r = rank r.severity ≤ rank s

-- The state is one of the severities, and none is greater.
pub record IsVerdict (a : HealthAssessment) : Type 0 where
  pub present : Has a.state a.reasons
  pub greatest : All (AtMost a.state) a.reasons

record IsWorst (so_far : Severity) (reasons : List HealthReason) (s : Severity) : Type 0 where
  present : (s ≡ so_far) ⊎ Has s reasons
  least : rank so_far ≤ rank s
  greatest : All (AtMost s) reasons

worst-IsWorst :
    (so_far : Severity) (reasons : List HealthReason)
    → IsWorst so_far reasons (worst so_far reasons)
unfolding worst
worst-IsWorst so_far [] = record { present = inl refl; least = omega arith; greatest = tt }
worst-IsWorst so_far (r ∷ reasons) = elim (Bool-cases (ltb (rank so_far) (rank r.severity))) [
  | inl e ↦ rw e (
      let h = worst-IsWorst r.severity reasons in
      record {
        present = elim h.present [ inl q ↦ inr (inl (cc q)) | inr q ↦ inr (inr q) ];
        least = let a = h.least in ground (arith, a, e);
        greatest = (h.least, h.greatest);
      })
  | inr e ↦ rw e (
      let h = worst-IsWorst so_far reasons in
      record {
        present = elim h.present [ inl q ↦ inl q | inr q ↦ inr (inr q) ];
        least = h.least;
        greatest = ((let a = h.least in ground (arith, a, e)), h.greatest);
      })
]

conclude-IsVerdict :
    (reasons : List HealthReason) (history : Bool) → IsVerdict (conclude reasons history)
unfolding conclude
conclude-IsVerdict [] history = record { present = inl refl; greatest = (omega arith, tt) }
conclude-IsVerdict (r ∷ reasons) history =
    let h = worst-IsWorst r.severity reasons in
    record {
      present = elim h.present [ inl q ↦ inl (cc q) | inr q ↦ inr q ];
      greatest = (h.least, h.greatest);
    }

-- Whatever was observed, there is a reason, the state is the severity of one of the reasons, and no
-- reason is more severe.
pub evaluate_health-IsVerdict :
    (t : Thresholds) (interfaces : List InterfaceStatus) (temperature : Text) (cpu : Option ℕ)
    (memory : Memory) (deltas : List Delta) (complete : Bool)
    → IsVerdict (evaluate_health t interfaces temperature cpu memory deltas complete)
unfolding evaluate_health
evaluate_health-IsVerdict t interfaces temperature cpu memory deltas complete =
    conclude-IsVerdict (found t interfaces temperature cpu memory deltas complete)
      (any has_history deltas)

-- The severity that the CPU alone gives.
abbrev pub cpu_rank : Thresholds → ℕ → ℕ
cpu_rank t cpu = rank (worst healthy (cpu_reasons t (some cpu)))

-- With thresholds in their order, a busier CPU is never judged less severe.
pub cpu_reasons_mono :
    (t : Thresholds) (a b : ℕ)
    → t.cpu_notice ≤ t.cpu_attention
    → t.cpu_attention ≤ t.cpu_critical
    → a ≤ b
    → cpu_rank t a ≤ cpu_rank t b
unfolding cpu_reasons worst
cpu_reasons_mono t a b h k le = ground (arith, h, k, le)
