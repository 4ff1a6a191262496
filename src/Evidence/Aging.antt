-- ===== src/Evidence/Aging.antt =====
-- How freshness goes with time, and confidence with the number of records.
use switch_ops.Prelude.{
  ℕ, ◌+◌, ◌-◌, ◌*◌, ◌≤◌, ◌≡◌, ◌≢◌, ◌↔◌, inl, inr, refl, arith, Bool, true, false, none, some, List,
  [], ◌∷◌, ◌++◌, ltb, if◌then◌else◌, any, Bool-cases,
}
use switch_ops.Evidence.{
  EvidenceType, interface_link, interface_description, cdp_neighbor, lldp_neighbor, mac_learned,
  arp_entry, local_host_mac, oui_vendor, user_intent, accepted_plan, prior_observation, current,
  historical, Confidence, confirmed, high, medium, low, unknown, second, evidence_expiry,
  freshness_for, by_age, is_prior, DiscoveryEvidence, has_type, has_existence, existence_confidence,
}

by_age-current : (seconds age : ℕ) → (by_age seconds age ≡ current) ↔ (age ≤ seconds * second)
unfolding by_age
by_age-current seconds age = (λ h. ground (arith, h), λ h. ground (arith, h))

by_age-historical : (seconds age : ℕ) → by_age seconds age ≢ historical
unfolding by_age
by_age-historical seconds age h = ground (arith, h)

with_expiry :
    (seconds observed reference expiry : ℕ)
    → (if ltb 0 seconds then some (observed + seconds * second) else none) ≡ some expiry
    → (by_age seconds (reference - observed) ≡ current) ↔ (reference ≤ expiry)
with_expiry seconds observed reference expiry h = elim (Bool-cases (ltb 0 seconds)) [
  | inl e ↦
      let q : observed + seconds * second ≡ expiry = cc (rw e at h) in
      (
        λ k. let a = (by_age-current seconds (reference - observed)).0 k in omega (arith, a, q),
        λ k. (by_age-current seconds (reference - observed)).1 (omega (arith, k, q)),
      )
  | inr e ↦ absurd (cc (rw e at h))
]

-- A fact with an expiry: once revoked it is HISTORICAL; else it is CURRENT exactly up to its expiry,
-- and never HISTORICAL, however long nothing could be polled.
pub freshness_for-expiry :
    (kind : EvidenceType) (observed reference expiry : ℕ)
    → evidence_expiry kind observed ≡ some expiry
    → (freshness_for kind observed reference true ≡ historical)
      × ((freshness_for kind observed reference false ≡ current) ↔ (reference ≤ expiry))
      × (freshness_for kind observed reference false ≢ historical)
unfolding freshness_for evidence_expiry is_prior
freshness_for-expiry interface_link o r x h =
    (refl, with_expiry 20 o r x h, by_age-historical 20 (r - o))
freshness_for-expiry cdp_neighbor o r x h =
    (refl, with_expiry 180 o r x h, by_age-historical 180 (r - o))
freshness_for-expiry lldp_neighbor o r x h =
    (refl, with_expiry 180 o r x h, by_age-historical 180 (r - o))
freshness_for-expiry mac_learned o r x h =
    (refl, with_expiry 180 o r x h, by_age-historical 180 (r - o))
freshness_for-expiry arp_entry o r x h =
    (refl, with_expiry 180 o r x h, by_age-historical 180 (r - o))
freshness_for-expiry local_host_mac o r x h =
    (refl, with_expiry 180 o r x h, by_age-historical 180 (r - o))
freshness_for-expiry oui_vendor o r x h =
    (refl, with_expiry 180 o r x h, by_age-historical 180 (r - o))
freshness_for-expiry interface_description o r x h = absurd (cc)
freshness_for-expiry user_intent o r x h = absurd (cc)
freshness_for-expiry accepted_plan o r x h = absurd (cc)
freshness_for-expiry prior_observation o r x h = absurd (cc)

abbrev pub confidence_rank : Confidence → ℕ
confidence_rank unknown = 0
confidence_rank low = 1
confidence_rank medium = 2
confidence_rank high = 3
confidence_rank confirmed = 4

any-append : {A : Type 0} (p : A → Bool) (a b : List A) → any p a ≡ true → any p (a ++ b) ≡ true
any-append p [] b h = absurd (cc)
any-append p (x ∷ a) b h = elim (Bool-cases (p x)) [
  | inl e ↦ rw e refl
  | inr e ↦ rw e (any-append p a b (rw e at h))
]

has_type-append :
    (kind : EvidenceType) (a b : List DiscoveryEvidence)
    → has_type kind a ≡ true
    → has_type kind (a ++ b) ≡ true
unfolding has_type
has_type-append kind a b h = any-append _ a b h

has_existence-append :
    (a b : List DiscoveryEvidence) → has_existence a ≡ true → has_existence (a ++ b) ≡ true
unfolding has_existence
has_existence-append a b h = any-append _ a b h

-- More records never lower the confidence in the existence of a device.
pub existence_confidence_mono :
    (records more : List DiscoveryEvidence)
    → confidence_rank (existence_confidence records)
      ≤ confidence_rank (existence_confidence (records ++ more))
unfolding existence_confidence
existence_confidence_mono records more =
    let a = has_type-append local_host_mac records more in
    let b = has_type-append cdp_neighbor records more in
    let c = has_type-append lldp_neighbor records more in
    let d = has_type-append interface_link records more in
    let e = has_type-append mac_learned records more in
    let f = has_existence-append records more in ground (arith, a, b, c, d, e, f)
