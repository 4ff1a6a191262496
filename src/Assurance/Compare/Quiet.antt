-- ===== src/Assurance/Compare/Quiet.antt =====
-- What a comparison without warnings has established.
use switch_ops.Prelude.{
  ◌≡◌, refl, sym, ap, ◌∙◌, arith, Bool, true, false, ◌||◌, Option, none, some, List, [], ◌∷◌, ◌++◌,
  map, All, All-mono, All-parts, All-map, Bool-cases, inl, inr, &&-true, ℤ, eqb_ℤ,
}
use switch_ops.Text.{Text, text_eq, text_eq_iff}
use switch_ops.Text.Dict.{Dict, lookup}
use switch_ops.Text.Sets.{sorted_set, All-sorted_set, All-has, has, has-append, distinct}
use switch_ops.Operations.Catalogue.{OperationKind}
use switch_ops.Operations.Reads.{OperationResult}
use switch_ops.Assurance.Model.{
  ChangePlan, AssuranceInterfaceSnapshot, AssuranceSnapshot, warning, Value, text, number, flag,
  texts, ChangeDifference,
}
use switch_ops.Assurance.Compare.{
  Field, admin_state, oper_state, description, vlan, speed, duplex, poe_admin, poe_oper,
  error_total, learned_mac_count, fields, value_of, is_allowed, text_lists_eq, flags_eq, value_eq,
  Findings, warn_if, diff, diffs, by_port, keys, target_difference, unrelated_difference, presence,
  port_differences, ports_differences, whole, configuration_differences, topology_differences,
  health_differences, error_differences, unrelated_differences, told, compare_snapshots,
}

eqb_ℤ-eq : (a b : ℤ) → eqb_ℤ a b ≡ true → a ≡ b
eqb_ℤ-eq a b h = ground arith

text_lists_eq-eq : (ss ts : List Text) → text_lists_eq ss ts ≡ true → ss ≡ ts
unfolding text_lists_eq
text_lists_eq-eq [] [] h = refl
text_lists_eq-eq [] (t ∷ ts) h = absurd (cc)
text_lists_eq-eq (s ∷ ss) [] h = absurd (cc)
text_lists_eq-eq (s ∷ ss) (t ∷ ts) h =
    let (e, f) = &&-true (text_eq s t) (text_lists_eq ss ts) h in
    cc ((text_eq_iff s t).0 e, text_lists_eq-eq ss ts f)

flags_eq-eq : (a b : Bool) → flags_eq a b ≡ true → a ≡ b
unfolding flags_eq
flags_eq-eq a b h = ground arith

value_eq-eq : (v w : Value) → value_eq v w ≡ true → v ≡ w
unfolding value_eq
value_eq-eq (text s) (text t) h = ap text ((text_eq_iff s t).0 h)
value_eq-eq (number a) (number b) h = ap number (eqb_ℤ-eq a b h)
value_eq-eq (flag a) (flag b) h = ap flag (flags_eq-eq a b h)
value_eq-eq (texts ss) (texts ts) h = ap texts (text_lists_eq-eq ss ts h)
value_eq-eq (text s) (number b) h = absurd (cc)
value_eq-eq (text s) (flag b) h = absurd (cc)
value_eq-eq (text s) (texts b) h = absurd (cc)
value_eq-eq (number s) (text b) h = absurd (cc)
value_eq-eq (number s) (flag b) h = absurd (cc)
value_eq-eq (number s) (texts b) h = absurd (cc)
value_eq-eq (flag s) (text b) h = absurd (cc)
value_eq-eq (flag s) (number b) h = absurd (cc)
value_eq-eq (flag s) (texts b) h = absurd (cc)
value_eq-eq (texts s) (text b) h = absurd (cc)
value_eq-eq (texts s) (number b) h = absurd (cc)
value_eq-eq (texts s) (flag b) h = absurd (cc)

-- A difference that would be a warning is none.
abbrev Unwarned : ChangeDifference → Type 0
Unwarned d = d.assessment ≡ warning → d.before ≡ d.after

append-nil_left : {A : Type 0} (xs ys : List A) → xs ++ ys ≡ [] → (xs ≡ []) × (ys ≡ [])
append-nil_left [] ys h = (refl, h)
append-nil_left (x ∷ xs) ys h = absurd (cc)

diff-Unwarned :
    (found : Findings) (d : ChangeDifference)
    → (diff found d).warnings ≡ []
    → (found.warnings ≡ []) × Unwarned d
unfolding diff
diff-Unwarned found d h = elim (Bool-cases (value_eq d.before d.after)) [
  | inl e ↦ (rw e at h, λ w. value_eq-eq d.before d.after e)
  | inr e ↦
      let (none_before, no_more) =
        append-nil_left found.warnings (warn_if d.assessment d.detail) (rw e at h) in
      (none_before, λ w. absurd (unfold warn_if in cc (rw w at no_more)))
]

diffs-Unwarned :
    (found : Findings) (ds : List ChangeDifference)
    → (diffs found ds).warnings ≡ []
    → (found.warnings ≡ []) × All Unwarned ds
unfolding diffs
diffs-Unwarned found [] h = (h, tt)
diffs-Unwarned found (d ∷ ds) h =
    let (first, rest) = diffs-Unwarned (diff found d) ds h in
    let (before, own) = diff-Unwarned found d first in (before, (own, rest))

distinct-nil : (ts : List Text) → distinct ts ≡ [] → ts ≡ []
unfolding distinct
distinct-nil [] h = refl
distinct-nil (t ∷ ts) h = absurd (cc)

-- `fields` names every field.
for_field : (P : Field → Type 0) → All P fields → (field : Field) → P field
for_field P h admin_state = h.0
for_field P h oper_state = h.1.0
for_field P h description = h.1.1.0
for_field P h vlan = h.1.1.1.0
for_field P h speed = h.1.1.1.1.0
for_field P h duplex = h.1.1.1.1.1.0
for_field P h poe_admin = h.1.1.1.1.1.1.0
for_field P h poe_oper = h.1.1.1.1.1.1.1.0
for_field P h error_total = h.1.1.1.1.1.1.1.1.0
for_field P h learned_mac_count = h.1.1.1.1.1.1.1.1.1.0

-- Both snapshots report the interface with the same fields, or neither does.
abbrev pub SameInterface :
    Option AssuranceInterfaceSnapshot → Option AssuranceInterfaceSnapshot → Type 0
SameInterface none none = Unit
SameInterface none (some new) = ⊥
SameInterface (some old) none = ⊥
SameInterface (some old) (some new) = (field : Field) → value_of field old ≡ value_of field new

port-same :
    (port : Text) (old new : Option AssuranceInterfaceSnapshot)
    → All Unwarned (port_differences port old new)
    → SameInterface old new
unfolding port_differences presence unrelated_difference
port-same port none none h = tt
port-same port none (some new) h = let e = h.0 refl in cc
port-same port (some old) none h = let e = h.0 refl in cc
port-same port (some old) (some new) h =
    for_field (λ f. value_of f old ≡ value_of f new)
      (All-mono (λ f. Unwarned (unrelated_difference port old new f))
        (λ f. value_of f old ≡ value_of f new) (λ f same. same refl) fields
        (All-map Unwarned (unrelated_difference port old new) fields h))

ports-same :
    (old new : Dict AssuranceInterfaceSnapshot) (ports : List Text)
    → All Unwarned (ports_differences old new ports)
    → All (λ port. SameInterface (lookup port old) (lookup port new)) ports
unfolding ports_differences
ports-same old new [] h = tt
ports-same old new (port ∷ rest) h =
    let (own, others) =
      All-parts Unwarned (port_differences port (lookup port old) (lookup port new))
        (ports_differences old new rest) h in
    (port-same port (lookup port old) (lookup port new) own, ports-same old new rest others)

lookup_of_no_key :
    (port : Text) (d : Dict AssuranceInterfaceSnapshot)
    → has port (keys d) ≡ false
    → lookup port d ≡ none
unfolding lookup keys has
lookup_of_no_key port [] h = refl
lookup_of_no_key port ((k, i) ∷ d) h = ground (arith, lookup_of_no_key port d)

same_everywhere :
    (old new : Dict AssuranceInterfaceSnapshot)
    → All (λ port. SameInterface (lookup port old) (lookup port new)) (keys old ++ keys new)
    → (port : Text) → SameInterface (lookup port old) (lookup port new)
same_everywhere old new h port = elim (Bool-cases (has port (keys old ++ keys new))) [
  | inl e ↦
      All-has (λ p. SameInterface (lookup p old) (lookup p new)) port (keys old ++ keys new) h e
  | inr e ↦
      let (no_old, no_new) =
        neither (has port (keys old)) (has port (keys new))
          (sym (has-append port (keys old) (keys new)) ∙ e) in
      rw (lookup_of_no_key port old no_old, lookup_of_no_key port new no_new) tt
]
  where
    neither : (a b : Bool) → (a || b) ≡ false → (a ≡ false) × (b ≡ false)
    neither a b h = ground arith

-- Everything that the operation may not change is the same before and after: the other fields of the
-- target, each other interface, the saved configuration, the topology away from the target, and the
-- health of the device, of the target and of the connection.
pub record IsQuiet (kind : OperationKind) (before after : AssuranceSnapshot) : Type 0 where
  pub target :
      (field : Field)
      → is_allowed kind field ≡ false
      → value_of field before.target ≡ value_of field after.target
  pub others :
      (port : Text)
      → SameInterface
          (lookup port (by_port before.other_interfaces []))
          (lookup port (by_port after.other_interfaces []))
  pub startup : before.configuration.startup_fingerprint ≡ after.configuration.startup_fingerprint
  pub topology :
      before.topology.other_topology_fingerprint ≡ after.topology.other_topology_fingerprint
  pub device_health : before.health.device_health ≡ after.health.device_health
  pub target_health : before.health.target_health ≡ after.health.target_health
  pub connection : before.health.connection_state ≡ after.health.connection_state

text-eq : {s t : Text} → text s ≡ text t → s ≡ t
text-eq h = cc

module _ (plan : ChangePlan) (before after : AssuranceSnapshot) where
  target-same :
      All Unwarned (map (target_difference plan before.target after.target) fields)
      → (field : Field) → is_allowed plan.step.kind field ≡ false
      → value_of field before.target ≡ value_of field after.target
  unfolding target_difference
  target-same h field e =
      for_field (λ f. Unwarned (target_difference plan before.target after.target f))
        (All-map Unwarned (target_difference plan before.target after.target) fields h) field
        (rw e refl)

  unrelated-same :
      All Unwarned (unrelated_differences plan before after)
      → (port : Text)
      → SameInterface
          (lookup port (by_port before.other_interfaces []))
          (lookup port (by_port after.other_interfaces []))
  unfolding unrelated_differences
  unrelated-same h =
      let old = by_port before.other_interfaces [] in
      let new = by_port after.other_interfaces [] in
      same_everywhere old new (
        All-sorted_set (λ p. SameInterface (lookup p old) (lookup p new)) (keys old ++ keys new)
          (ports-same old new (sorted_set (keys old ++ keys new)) h))

  told-IsQuiet :
      (requires_save : Bool)
      → All Unwarned (told plan before after requires_save)
      → IsQuiet plan.step.kind before after
  unfolding told
  told-IsQuiet requires_save h =
      let configured = configuration_differences plan before after requires_save in
      let places = topology_differences plan before after in
      let state = health_differences plan before after in
      let errors = error_differences plan before after in
      let targets = map (target_difference plan before.target after.target) fields in
      let unrelated = unrelated_differences plan before after in
      let (h1, _) =
        All-parts Unwarned (targets ++ unrelated ++ configured ++ places ++ state) errors h in
      let (h2, healthy) =
        All-parts Unwarned (targets ++ unrelated ++ configured ++ places) state h1 in
      let (h3, placed) = All-parts Unwarned (targets ++ unrelated ++ configured) places h2 in
      let (h4, saved) = All-parts Unwarned (targets ++ unrelated) configured h3 in
      let (own, others) = All-parts Unwarned targets unrelated h4 in
      unfold configuration_differences topology_differences health_differences whole in
      record {
        target = target-same own;
        others = unrelated-same others;
        startup = text-eq (saved.1.0 refl);
        topology = text-eq (placed.1.1.0 refl);
        device_health = text-eq (healthy.0 refl);
        target_health = text-eq (healthy.1.0 refl);
        connection = text-eq (healthy.1.1.0 refl);
      }

  -- A comparison without warnings shows that nothing changed but what the operation is meant to: the
  -- fields of the target that it does not declare, each other interface, the saved configuration, the
  -- topology away from the target, and the health of the device, the target and the connection.
  pub compare_snapshots-IsQuiet :
      (operation : OperationResult)
      → (compare_snapshots plan before after operation).warnings ≡ []
      → IsQuiet plan.step.kind before after
  unfolding compare_snapshots
  compare_snapshots-IsQuiet operation h =
      let saves = operation.outcome.requires_save in
      told-IsQuiet saves
        (diffs-Unwarned (record { differences = []; warnings = [] }) (told plan before after saves)
          (distinct-nil _ h)).1
