-- ===== src/Examples/Health.antt =====
-- Health of a switch with one port that lost its link, and of a first observation.
use switch_ops.Prelude.{◌≤◌, ◌≡◌, refl, arith, inl, true, false, none, some, [], ◌∷◌, All}
use switch_ops.Text.{codes}
use switch_ops.Models.{InterfaceStatus}
use switch_ops.Policy.Model.{unmanaged}
use switch_ops.Health.Signals.{Memory, Delta, first, unchanged, default_thresholds, critical}
use switch_ops.Health.Engine.{HealthAssessment, evaluate_health}
use switch_ops.Health.Engine.Verdict.{IsVerdict, evaluate_health-IsVerdict}
use switch_ops.Health.Engine.Quiet.{IsFirst}

abbrev uplink : InterfaceStatus
uplink = record {
  port = codes "Gi0/1";
  name = codes "Uplink to core";
  status = codes "notconnect";
  vlan = codes "trunk";
  duplex = codes "auto";
  speed = codes "auto";
  type_name = [];
  protected = false;
  policy_state = unmanaged;
}

abbrev lost : Delta
lost = record {
  port = codes "Gi0/1";
  error_delta = some 0;
  counter_state = unchanged;
  status_before = some (codes "connected");
  status_after = codes "notconnect";
  speed_before = some (codes "a-1000");
  speed_after = codes "auto";
  duplex_before = some (codes "a-full");
  duplex_after = codes "auto";
  poe_before = none;
  poe_after = [];
}

abbrev new : Delta
new = record lost { counter_state = first; status_before = none; error_delta = some 5000 }

abbrev memory : Memory
memory = record { total = some 1000; used = some 500 }

abbrev down : HealthAssessment
down =
    evaluate_health default_thresholds (uplink ∷ []) (codes "GREEN") (some 12) memory (lost ∷ [])
      true

down_critical : down.state ≡ critical
unfolding evaluate_health
down_critical = refl

evaluate_health-IsVerdict_example : IsVerdict down
evaluate_health-IsVerdict_example =
    evaluate_health-IsVerdict default_thresholds (uplink ∷ []) (codes "GREEN") (some 12) memory
      (lost ∷ []) true

new-IsFirst : All IsFirst (new ∷ [])
new-IsFirst = (record { still = inl refl; no_status = refl; no_poe = refl }, tt)

notice_first : 65 ≤ 80
notice_first = omega arith

attention_first : 80 ≤ 95
attention_first = omega arith

busier : 70 ≤ 96
busier = omega arith
