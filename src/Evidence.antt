-- ===== src/Evidence.antt =====
-- backend/app/discovery_evidence.py: how fresh a fact is, and what the facts confirm. Times are
-- microseconds, the resolution of `datetime`.
pub mod Aging
use switch_ops.Prelude.{
  ℕ, ◌+◌, ◌-◌, ◌*◌, Bool, true, false, ◌&&◌, ◌||◌, not, Option, none, some, List, ltb, leb,
  if◌then◌else◌, any,
}

pub data EvidenceType : Type 0 where
  interface_link interface_description cdp_neighbor lldp_neighbor mac_learned : EvidenceType
  arp_entry local_host_mac oui_vendor user_intent accepted_plan prior_observation : EvidenceType

pub data Freshness : Type 0 where
  current aging stale historical : Freshness

pub data Confidence : Type 0 where
  confirmed high medium low unknown : Confidence

-- `_CURRENT_SECONDS`
unfoldable pub current_seconds : EvidenceType → Option ℕ
current_seconds interface_link = some 20
current_seconds interface_description = none
current_seconds user_intent = none
current_seconds accepted_plan = none
current_seconds prior_observation = some 0
current_seconds _ = some 180

abbrev pub second : ℕ
second = 1000000

unfoldable pub evidence_expiry : EvidenceType → ℕ → Option ℕ
unfolding current_seconds
evidence_expiry kind observed_at = elim (current_seconds kind) [
  | none ↦ none
  | some seconds ↦ if ltb 0 seconds then some (observed_at + seconds * second) else none
]

is_prior : EvidenceType → Bool
is_prior prior_observation = true
is_prior _ = false

by_age : ℕ → ℕ → Freshness
by_age seconds age =
    if leb age (seconds * second)
    then current
    else if leb age (seconds * 4 * second)
    then aging
    else stale

-- The age is not below zero; the state of the connection is not looked at.
unfoldable pub freshness_for : EvidenceType → ℕ → ℕ → Bool → Freshness
unfolding current_seconds by_age is_prior
freshness_for kind observed_at reference_at revoked =
    if revoked || is_prior kind then historical else elim (current_seconds kind) [
      | none ↦ current
      | some seconds ↦ by_age seconds (reference_at - observed_at)
    ]

-- What is read of a record here.
pub record DiscoveryEvidence : Type 0 where
  pub evidence_type : EvidenceType
  pub freshness : Freshness
  pub revoked : Bool
  pub existence : Bool

same_type : EvidenceType → EvidenceType → Bool
same_type interface_link interface_link = true
same_type cdp_neighbor cdp_neighbor = true
same_type lldp_neighbor lldp_neighbor = true
same_type mac_learned mac_learned = true
same_type arp_entry arp_entry = true
same_type local_host_mac local_host_mac = true
same_type oui_vendor oui_vendor = true
same_type _ _ = false

is_current : DiscoveryEvidence → Bool
is_current r = elim (r.freshness) [ current ↦ not r.revoked | _ ↦ false ]

-- kind in types, over the current records.
has_type : EvidenceType → List DiscoveryEvidence → Bool
unfolding is_current same_type
has_type kind records = any (λ r. is_current r && same_type kind r.evidence_type) records

has_existence : List DiscoveryEvidence → Bool
unfolding is_current
has_existence records = any (λ r. is_current r && r.existence) records

unfoldable pub existence_confidence : List DiscoveryEvidence → Confidence
unfolding has_type has_existence
existence_confidence records =
    if has_type local_host_mac records
      || has_type cdp_neighbor records
      || has_type lldp_neighbor records
    then confirmed
    else if has_type interface_link records && has_type mac_learned records
    then high
    else if has_type interface_link records
    then medium
    else if has_existence records
    then low
    else unknown

unfoldable pub lower : Confidence → Confidence
lower confirmed = high
lower high = medium
lower medium = low
lower _ = unknown

identity_by_type : List DiscoveryEvidence → Confidence
unfolding has_type
identity_by_type records =
    if has_type local_host_mac records
    then confirmed
    else if has_type cdp_neighbor records || has_type lldp_neighbor records
    then high
    else if has_type oui_vendor records
        && has_type arp_entry records
        && has_type mac_learned records
    then medium
    else if has_type oui_vendor records
    then low
    else unknown

-- `is_conflicting` says that there is a conflict.
unfoldable pub identity_confidence : List DiscoveryEvidence → Bool → Confidence
unfolding identity_by_type lower
identity_confidence records is_conflicting =
    if is_conflicting then lower (identity_by_type records) else identity_by_type records
