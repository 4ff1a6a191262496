-- ===== src/Identity.antt =====
-- backend/app/identity_resolution.py, with the records of unified_models.py that it uses: which
-- records of two providers are one device. Summaries, times and the ids of links are left out.
pub mod Claims
pub mod Cross
use switch_ops.Prelude.{
  ℕ, ◌+◌, Bool, true, false, ◌&&◌, ◌||◌, not, Option, none, some, List, [], ◌∷◌, ◌++◌, map, ltb,
  ◌==◌, if◌then◌else◌, any,
}
use switch_ops.Text.{Text, text_eq}
use switch_ops.Text.Sets.{has}
use switch_ops.Assurance.Impact.{keep}

pub data Kind : Type 0 where
  serial chassis_mac device_mac management_address provider_id : Kind
  direct_adjacency reciprocal_adjacency name_kind model_kind : Kind

number : Kind → ℕ
number serial = 0
number chassis_mac = 1
number device_mac = 2
number management_address = 3
number provider_id = 4
number direct_adjacency = 5
number reciprocal_adjacency = 6
number name_kind = 7
number model_kind = 8

kind_eq : Kind → Kind → Bool
unfolding number
kind_eq a b = number a == number b

pub record ProviderIdentifier : Type 0 where
  pub kind : Kind
  pub protected_value : Text
  pub globally_administered : Option Bool
  pub provenance_ref : Text

pub record ProviderEntity : Type 0 where
  pub id : Text
  pub provider : Text
  pub identifiers : List ProviderIdentifier

pub data ReasonKind : Type 0 where
  agreement conflict support hint : ReasonKind

pub data Strength : Type 0 where
  strong supporting weak : Strength

pub record IdentityReason : Type 0 where
  pub kind : ReasonKind
  pub field : Kind
  pub strength : Strength
  pub provenance_refs : List Text

pub data LinkState : Type 0 where
  confirmed candidate rejected conflicted : LinkState

pub record IdentityLink : Type 0 where
  pub left_entity_id : Text
  pub right_entity_id : Text
  pub state : LinkState
  pub reasons : List IdentityReason

pub record IdentityConflict : Type 0 where
  pub left_entity_id : Text
  pub right_entity_id : Text
  pub field : Kind
  pub provenance_refs : List Text

is_set : Option Bool → Bool
is_set none = false
is_set (some b) = b

-- A local hardware address takes no part.
admitted : ProviderIdentifier → Bool
unfolding kind_eq is_set
admitted i =
    let is_mac = kind_eq i.kind chassis_mac || kind_eq i.kind device_mac in
    not (is_mac && not (is_set i.globally_administered))

-- `_by_kind`, for one kind.
unfoldable pub by_kind : ProviderEntity → Kind → List ProviderIdentifier
unfolding kind_eq admitted keep
by_kind e kind = keep (λ i. kind_eq i.kind kind && admitted i) e.identifiers

unfoldable pub items_of : List Kind → ProviderEntity → List ProviderIdentifier
unfolding by_kind
items_of [] e = []
items_of (kind ∷ kinds) e = by_kind e kind ++ items_of kinds e

unfoldable pub values_of : List Kind → ProviderEntity → List Text
unfolding items_of
values_of kinds e = map (λ i. i.protected_value) (items_of kinds e)

-- The values that two sets share.
unfoldable pub common : List Text → List Text → List Text
unfolding has
common [] ys = []
common (x ∷ xs) ys = let rest = common xs ys in if has x ys then x ∷ rest else rest

-- A group of kinds of the two: one has none, they share a value, or they share none.
pub data Finding : Type 0 where
  incomparable shared disjoint : Finding

judge : List Text → List Text → List Text → Finding
judge [] ys both = incomparable
judge (x ∷ xs) [] both = incomparable
judge (x ∷ xs) (y ∷ ys) [] = disjoint
judge (x ∷ xs) (y ∷ ys) (v ∷ both) = shared

unfoldable pub finding : List Kind → ProviderEntity → ProviderEntity → Finding
unfolding judge values_of common
finding kinds left right =
    let xs = values_of kinds left in let ys = values_of kinds right in judge xs ys (common xs ys)

provenance : List Kind → ProviderEntity → ProviderEntity → List Text
unfolding items_of
provenance kinds left right =
    map (λ i. i.provenance_ref) (items_of kinds left ++ items_of kinds right)

pub record Tally : Type 0 where
  pub strong_agreements : ℕ
  pub supporting_agreements : ℕ
  pub weak_agreements : ℕ
  pub reasons : List IdentityReason
  pub disagreements : List (Kind × List Text)

abbrev pub empty_tally : Tally
empty_tally = record {
  strong_agreements = 0;
  supporting_agreements = 0;
  weak_agreements = 0;
  reasons = [];
  disagreements = [];
}

abbrev pub mac_kinds : List Kind
mac_kinds = chassis_mac ∷ device_mac ∷ []

abbrev pub serial_kinds : List Kind
serial_kinds = serial ∷ []

-- A round of the first loop, with what it found.
unfoldable pub add_strong : Kind → List Text → Finding → Tally → Tally
add_strong kind refs incomparable t = t
add_strong kind refs shared t = record t {
  strong_agreements = t.strong_agreements + 1;
  reasons =
      t.reasons
      ++ record { kind = agreement; field = kind; strength = strong; provenance_refs = refs } ∷ [];
}
add_strong kind refs disjoint t = record t { disagreements = t.disagreements ++ (kind, refs) ∷ [] }

is_supporting : Kind → Bool
unfolding kind_eq
is_supporting kind =
    kind_eq kind management_address
    || kind_eq kind direct_adjacency
    || kind_eq kind reciprocal_adjacency

-- A round of the second loop.
add_other : Kind → List Text → Finding → Tally → Tally
unfolding is_supporting
add_other kind refs incomparable t = t
add_other kind refs disjoint t = t
add_other kind refs shared t =
    if is_supporting kind
    then record t {
      supporting_agreements = t.supporting_agreements + 1;
      reasons =
          t.reasons
          ++ record { kind = support; field = kind; strength = supporting; provenance_refs = refs }
            ∷ [];
    }
    else record t {
      weak_agreements = t.weak_agreements + 1;
      reasons =
          t.reasons
          ++ record { kind = hint; field = kind; strength = weak; provenance_refs = refs } ∷ [];
    }

others : List Kind → ProviderEntity → ProviderEntity → Tally → Tally
unfolding add_other finding provenance
others [] left right t = t
others (kind ∷ kinds) left right t =
    let here = kind ∷ [] in
    others kinds left right
      (add_other kind (provenance here left right) (finding here left right) t)

-- The supporting and the weak kinds, sorted.
abbrev pub other_kinds : List Kind
other_kinds =
    direct_adjacency ∷ management_address ∷ model_kind ∷ name_kind ∷ reciprocal_adjacency ∷ []

unfoldable pub tally : ProviderEntity → ProviderEntity → Tally
unfolding add_strong others finding provenance
tally left right =
    let serials =
      add_strong serial (provenance serial_kinds left right) (finding serial_kinds left right)
        empty_tally in
    let macs =
      add_strong chassis_mac (provenance mac_kinds left right) (finding mac_kinds left right)
        serials in
    others other_kinds left right macs

name_hint : IdentityReason → Bool
unfolding kind_eq
name_hint r = elim (r.kind) [
  | agreement ↦ false
  | conflict ↦ false
  | support ↦ false
  | hint ↦ kind_eq r.field name_kind
]

is_plausible : Tally → Bool
unfolding name_hint
is_plausible t =
    ltb 0 t.strong_agreements || ltb 0 t.supporting_agreements || any name_hint t.reasons

conflict_reason : Kind × List Text → IdentityReason
conflict_reason (kind, refs) = record {
  kind = conflict;
  field = kind;
  strength = strong;
  provenance_refs = refs;
}

conflict_of : ProviderEntity → ProviderEntity → Kind × List Text → IdentityConflict
conflict_of left right (kind, refs) = record {
  left_entity_id = left.id;
  right_entity_id = right.id;
  field = kind;
  provenance_refs = refs;
}

link : ProviderEntity → ProviderEntity → LinkState → List IdentityReason → IdentityLink
link left right state reasons = record {
  left_entity_id = left.id;
  right_entity_id = right.id;
  state = state;
  reasons = reasons;
}

state_of : Tally → LinkState
state_of t =
    if ltb 0 t.strong_agreements
    then confirmed
    else if ltb 0 t.supporting_agreements || ltb 0 t.weak_agreements
    then candidate
    else rejected

-- The end of `resolve_identity_pair`.
conclude :
    ProviderEntity
    → ProviderEntity
    → Tally
    → Bool
    → List (Kind × List Text)
    → IdentityLink × List IdentityConflict
unfolding link state_of conflict_reason conflict_of
conclude left right t plausible [] = (link left right (state_of t) t.reasons, [])
conclude left right t false (d ∷ ds) = (link left right (state_of t) t.reasons, [])
conclude left right t true (d ∷ ds) = (
  link left right conflicted (t.reasons ++ map conflict_reason (d ∷ ds)),
  map (conflict_of left right) (d ∷ ds),
)

unfoldable pub resolve_identity_pair :
    ProviderEntity → ProviderEntity → IdentityLink × List IdentityConflict
unfolding conclude tally is_plausible link
resolve_identity_pair left right =
    let t = tally left right in
    if text_eq left.provider right.provider
    then (link left right rejected [], [])
    else conclude left right t (is_plausible t) t.disagreements
