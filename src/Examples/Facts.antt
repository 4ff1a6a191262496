-- ===== src/Examples/Facts.antt =====
-- A neighbour that was seen a while ago, and a list of records.
use switch_ops.Prelude.{◌≡◌, refl, true, false, some}
use switch_ops.Evidence.{
  cdp_neighbor, interface_link, mac_learned, current, DiscoveryEvidence, evidence_expiry,
}

neighbour_expiry : evidence_expiry cdp_neighbor 5000000 ≡ some 185000000
unfolding evidence_expiry
neighbour_expiry = refl

abbrev link : DiscoveryEvidence
link = record {
  evidence_type = interface_link;
  freshness = current;
  revoked = false;
  existence = true;
}

abbrev learned : DiscoveryEvidence
learned = record link { evidence_type = mac_learned }
