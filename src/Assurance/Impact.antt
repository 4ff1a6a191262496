-- ===== src/Assurance/Impact.antt =====
-- What a snapshot tells of the target from the context: links, attached and learned entities, the
-- correlation with the local host, the health of the target and the rest of the topology.
use switch_ops.Prelude.{
  ℕ, Bool, true, false, ◌&&◌, ◌||◌, not, Option, none, some, List, [], ◌∷◌, ◌++◌, ltb, any,
  if◌then◌else◌, map,
}
use switch_ops.Text.{Text, codes, text_eq, lower, strip, join}
use switch_ops.Text.Sets.{upper, sorted_set}
use switch_ops.Assurance.Context.{
  TopologyInterface, TopologyLink, TopologyDevice, HealthReasonItem, Context, or_text,
}

-- str(x or "").lower() == y.lower()
unfoldable pub same_port : Text → Option Text → Bool
unfolding or_text lower
same_port port x = text_eq (lower (or_text [] x)) (lower port)

-- x == y, for a value that may be missing
is_text : Text → Option Text → Bool
is_text t none = false
is_text t (some s) = text_eq s t

module _ {A : Type 0} where
  -- The elements that pass a test, in their order.
  unfoldable pub keep : (A → Bool) → List A → List A
  keep test [] = []
  keep test (x ∷ xs) = if test x then x ∷ keep test xs else keep test xs

  -- next((... for x in xs if test(x)), None)
  unfoldable pub first_of : (A → Bool) → List A → Option A
  first_of test [] = none
  first_of test (x ∷ xs) = if test x then some x else first_of test xs

  -- The texts of the elements that pass a test and have one.
  texts_of : (A → Option Text) → List A → List Text
  unfolding or_text
  texts_of text [] = []
  texts_of text (x ∷ xs) = elim (or_text [] (text x)) [
    | [] ↦ texts_of text xs
    | c ∷ s ↦ (c ∷ s) ∷ texts_of text xs
  ]

unfoldable pub target_links : Text → List TopologyLink → List TopologyLink
unfolding keep same_port
target_links port = keep (λ l. same_port port l.from_interface)

unfoldable pub relationships : List TopologyLink → List Text
unfolding sorted_set or_text
relationships links = sorted_set (map (λ l. or_text (codes "unknown") l.relationship) links)

is_attaching : TopologyLink → Bool
unfolding is_text
is_attaching l =
    is_text (codes "attached-endpoint") l.relationship
    || is_text (codes "direct-neighbour") l.relationship

-- A device that the topology places at the port, not in the past only.
is_present_at : Text → TopologyDevice → Bool
unfolding same_port is_text
is_present_at port d =
    same_port port d.connected_interface && not (is_text (codes "historical") d.existence_state)

-- `attached`, as a list
unfoldable pub attached : Text → Context → List Text
unfolding target_links texts_of keep is_attaching is_present_at
attached port context =
    texts_of (λ l. l.to_device_id) (keep is_attaching (target_links port context.links))
    ++ texts_of (λ d. d.id) (keep (is_present_at port) context.devices)

unfoldable pub local_host_correlated : Text → List TopologyDevice → Bool
unfolding is_present_at or_text strip lower
local_host_correlated port = any (λ d.
    is_present_at port d
    && (text_eq (or_text [] d.identity_source) (codes "local-host")
        || text_eq (lower (strip (or_text [] d.name))) (codes "this switchops pc")))

-- The entities that links place behind the port.
unfoldable pub learned_by_link : List TopologyLink → List Text
unfolding texts_of keep is_text
learned_by_link links =
    texts_of (λ l. l.to_device_id)
      (keep (λ l. is_text (codes "learned-behind") l.relationship) links)

-- `_fingerprint` of the links and devices away from the target: sorted keys, no spaces.
unfoldable pub other_topology_fingerprint : (Text → Text) → Text → Context → Text
unfolding keep same_port join
other_topology_fingerprint digest port context = digest (
    codes "{\"devices\":["
    ++ join 44 (
        map (λ d. d.document)
          (keep (λ d. not (same_port port d.connected_interface)) context.devices))
    ++ codes "],\"links\":["
    ++ join 44
        (map (λ l. l.document) (keep (λ l. not (same_port port l.from_interface)) context.links))
    ++ codes "]}")

unfoldable pub evidence_ids : Option TopologyInterface → List TopologyLink → List Text
unfolding sorted_set
evidence_ids target links =
    sorted_set (elim target [ none ↦ [] | some t ↦ t.evidence_ids ] ++ all links)
  where
    all : List TopologyLink → List Text
    all [] = []
    all (l ∷ ls) = l.evidence_ids ++ all ls

-- `ranked`, with `none` for -1
rank_of : Text → Option ℕ
rank_of t =
    if text_eq t (codes "HEALTHY")
    then some 0
    else if text_eq t (codes "NOTICE")
    then some 1
    else if text_eq t (codes "ATTENTION")
    then some 2
    else if text_eq t (codes "CRITICAL")
    then some 3
    else none

outranks : Option ℕ → Option ℕ → Bool
outranks none b = false
outranks (some a) none = true
outranks (some a) (some b) = ltb b a

worst_of : Text → Text → List HealthReasonItem → Text
unfolding same_port upper or_text outranks rank_of
worst_of port state [] = state
worst_of port state (r ∷ rest) =
    let candidate = upper (or_text (codes "UNKNOWN") r.severity) in
    worst_of port
      (if same_port port r.interface && outranks (rank_of candidate) (rank_of state)
        then candidate
        else state)
      rest

unfoldable pub target_health : Context → Text → Text
unfolding worst_of
target_health context port = elim context.health [
  | none ↦ codes "UNKNOWN"
  | some h ↦ worst_of port (codes "HEALTHY") h.reasons
]
