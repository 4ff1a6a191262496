-- ===== src/Assurance/Context.antt =====
-- The observations that a snapshot is told from outside the device: the last deep topology, the
-- reconciliation, the health assessment and the connection, with what the code reads of each. A
-- missing entry of a dictionary is `none`; `document` is the whole dictionary as JSON.
use switch_ops.Prelude.{Option, none, some, List, [], ◌∷◌}
use switch_ops.Text.{Text}

pub record TopologyInterface : Type 0 where
  pub port : Option Text
  pub expected_name : Option Text
  pub role : Option Text
  pub freshness : Option Text
  pub evidence_ids : List Text

pub record TopologyLink : Type 0 where
  pub from_interface : Option Text
  pub to_device_id : Option Text
  pub relationship : Option Text
  pub evidence_ids : List Text
  pub document : Text

pub record TopologyDevice : Type 0 where
  pub id : Option Text
  pub name : Option Text
  pub connected_interface : Option Text
  pub existence_state : Option Text
  pub identity_source : Option Text
  pub document : Text

pub record ReconciliationItem : Type 0 where
  pub interface : Option Text
  pub status : Option Text

pub record HealthReasonItem : Type 0 where
  pub interface : Option Text
  pub severity : Option Text

-- `health` is the cached assessment, if there is one.
pub record HealthContext : Type 0 where
  pub state : Option Text
  pub reasons : List HealthReasonItem

pub record Context : Type 0 where
  pub interfaces : List TopologyInterface
  pub links : List TopologyLink
  pub devices : List TopologyDevice
  pub reconciliation : List ReconciliationItem
  pub health : Option HealthContext
  pub connection_state : Option Text

-- x or default
unfoldable pub or_text : Text → Option Text → Text
or_text default none = default
or_text default (some []) = default
or_text default (some (c ∷ s)) = c ∷ s
