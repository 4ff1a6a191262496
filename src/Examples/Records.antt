-- ===== src/Examples/Records.antt =====
-- Three records of two devices, a counter that passes its end, and a port that stays as it was.
use switch_ops.Prelude.{
  ◌+◌, ◌%◌, ◌≡◌, ◌≢◌, ◌⊎◌, ◌↔◌, refl, arith, true, false, some, none, List, [], ◌∷◌, All,
}
use switch_ops.Text.{Text, codes}
use switch_ops.Models.{InterfaceStatus}
use switch_ops.Policy.Model.{unmanaged}
use switch_ops.Identity.{
  ProviderEntity, serial, model_kind, device_mac, chassis_mac, confirmed, candidate, rejected,
  serial_kinds, mac_kinds, resolve_identity_pair,
}
use switch_ops.Identity.Claims.{Agree, Disagree, resolve_identity_pair-confirmed_iff}
use switch_ops.Identity.Cross.{resolve_cross_provider_identities}
use switch_ops.Identity.Cross.Unique.{IsEarned, resolve_cross_provider_identities-IsUnique}
use switch_ops.Telemetry.{calculate_counter_delta, derive_delta, derive_events, row_of}
use switch_ops.Telemetry.Counters.{calculate_counter_delta-growth}
use switch_ops.Telemetry.Quiet.{derive_events-repeated}

abbrev seen_by_switch : ProviderEntity
seen_by_switch = record {
  id = codes "e1";
  provider = codes "catalyst";
  identifiers =
      record {
        kind = chassis_mac;
        protected_value = codes "mac-1";
        globally_administered = some true;
        provenance_ref = codes "p1";
      }
      ∷ [];
}

abbrev seen_by_cloud : ProviderEntity
seen_by_cloud = record {
  id = codes "e2";
  provider = codes "meraki";
  identifiers =
      record {
        kind = device_mac;
        protected_value = codes "mac-1";
        globally_administered = some true;
        provenance_ref = codes "p2";
      }
      ∷ record {
        kind = serial;
        protected_value = codes "serial-1";
        globally_administered = none;
        provenance_ref = codes "p3";
      }
      ∷ [];
}

abbrev copy_by_cloud : ProviderEntity
copy_by_cloud = record seen_by_cloud { id = codes "e3" }

one_device : (resolve_identity_pair seen_by_switch seen_by_cloud).0.state ≡ confirmed
unfolding resolve_identity_pair
one_device = refl

local_address :
    (resolve_identity_pair
      (record seen_by_switch {
        identifiers =
            record {
              kind = chassis_mac;
              protected_value = codes "mac-1";
              globally_administered = some false;
              provenance_ref = codes "p1";
            }
            ∷ [];
      })
      seen_by_cloud).0.state
    ≡ rejected
unfolding resolve_identity_pair
local_address = refl

resolve_identity_pair-confirmed_iff_example :
    ((resolve_identity_pair seen_by_switch seen_by_cloud).0.state ≡ confirmed) ↔ (
      (seen_by_switch.provider ≢ seen_by_cloud.provider)
      × (Agree serial_kinds seen_by_switch seen_by_cloud
          ⊎ Agree mac_kinds seen_by_switch seen_by_cloud)
      × ¬ Disagree serial_kinds seen_by_switch seen_by_cloud
      × ¬ Disagree mac_kinds seen_by_switch seen_by_cloud)
resolve_identity_pair-confirmed_iff_example =
    resolve_identity_pair-confirmed_iff seen_by_switch seen_by_cloud

abbrev records : List ProviderEntity
records = seen_by_cloud ∷ seen_by_switch ∷ copy_by_cloud ∷ []

resolve_cross_provider_identities-IsUnique_example :
    All (IsEarned records) (resolve_cross_provider_identities records).0
resolve_cross_provider_identities-IsUnique_example =
    resolve_cross_provider_identities-IsUnique records

calculate_counter_delta-growth_example :
    (calculate_counter_delta (some 4294967290) ((4294967290 + 10) % 4294967296)).0 ≡ some 10
calculate_counter_delta-growth_example =
    calculate_counter_delta-growth 4294967290 10 (omega arith) (omega arith)

abbrev uplink_port : InterfaceStatus
uplink_port = record {
  port = codes "Gi0/1";
  name = codes "Uplink to router";
  status = codes "connected";
  vlan = codes "trunk";
  duplex = codes "a-full";
  speed = codes "a-1000";
  type_name = [];
  protected = false;
  policy_state = unmanaged;
}

abbrev addresses : List Text
addresses = codes "b" ∷ codes "a" ∷ codes "b" ∷ []

derive_events-repeated_example :
    let row = row_of uplink_port (codes "on") 7 addresses in
    derive_events uplink_port row (derive_delta uplink_port (some row) 7 (codes "on")) addresses
    ≡ []
derive_events-repeated_example = derive_events-repeated uplink_port (codes "on") 7 addresses

-- Their serial numbers differ, and only their model is the same.
abbrev described : Text → Text → Text → ProviderEntity
described id provider number = record {
  id = id;
  provider = provider;
  identifiers =
      record {
        kind = serial;
        protected_value = number;
        globally_administered = none;
        provenance_ref = codes "p";
      }
      ∷ record {
        kind = model_kind;
        protected_value = codes "model-1";
        globally_administered = none;
        provenance_ref = codes "p";
      }
      ∷ [];
}

only_the_model :
    (resolve_identity_pair
      (described (codes "a") (codes "catalyst") (codes "serial-1"))
      (described (codes "b") (codes "meraki") (codes "serial-2"))).0.state
    ≡ candidate
unfolding resolve_identity_pair
only_the_model = refl
