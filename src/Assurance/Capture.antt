-- ===== src/Assurance/Capture.antt =====
-- `capture_assurance_snapshot` as a run on the device: the names and the value are checked, six
-- commands are read, and the snapshot is put together.
pub mod Silent
use switch_ops.Prelude.{Bool, true, false, not, Option, none, some, List, [], ◌++◌, Result, ok, err}
use switch_ops.Text.{Text, codes, text_eq, lower}
use switch_ops.Text.Dict.{lookup}
use switch_ops.Text.Sets.{sorted_set, minus_set}
use switch_ops.Parsers.Interfaces.{parse_interface_status}
use switch_ops.Parsers.Poe.{parse_poe}
use switch_ops.Parsers.Errors.{parse_interface_errors}
use switch_ops.Parsers.MacTable.{parse_mac_table}
use switch_ops.Operations.Catalogue.{OperationKind, rollback_commands}
use switch_ops.Operations.Config.{interface_config}
use switch_ops.Operations.Exec.{Client, Exec, ◌>>=◌, pure, run_and_audit}
use switch_ops.Operations.Save.{configuration_fingerprint}
use switch_ops.Assurance.Model.{
  AssuranceInterfaceSnapshot, AssuranceConfigurationSnapshot, AssuranceTopologySnapshot,
  AssuranceHealthSnapshot, AssuranceEvidenceSnapshot, AssuranceSnapshot,
}
use switch_ops.Assurance.Context.{TopologyInterface, Context, or_text}
use switch_ops.Assurance.Impact.{
  same_port, first_of, target_links, relationships, attached, local_host_correlated,
  learned_by_link, other_topology_fingerprint, evidence_ids, target_health,
}
use switch_ops.Assurance.Snapshot.{
  canonical_and_short, plan_value, Readings, poe_by_port, error_by_port, learned_by_port,
  list_or_empty, interface_snapshots, target_of, others_of,
}

-- The six outputs.
pub record Outputs : Type 0 where
  pub interfaces : Text
  pub power : Text
  pub counters : Text
  pub addresses : Text
  pub running : Text
  pub startup : Text

abbrev has_rollback : Option (List Text) → Bool
has_rollback none = false
has_rollback (some commands) = true

module _ (digest : Text → Text) where
  readings_of : Outputs → Readings
  unfolding parse_poe parse_interface_errors parse_mac_table poe_by_port error_by_port
      learned_by_port
  readings_of o = record {
    poe = poe_by_port (parse_poe o.power) [];
    errors = error_by_port (parse_interface_errors o.counters) [];
    learned = learned_by_port digest (parse_mac_table o.addresses) [];
  }

  configuration_of : OperationKind → Text → Outputs → AssuranceConfigurationSnapshot
  unfolding interface_config rollback_commands configuration_fingerprint
  configuration_of kind canonical o = record {
    running_fingerprint = configuration_fingerprint digest o.running;
    startup_fingerprint = configuration_fingerprint digest o.startup;
    running_differs_from_startup = not (
        text_eq (configuration_fingerprint digest o.running)
          (configuration_fingerprint digest o.startup));
    rollback_representable = elim (interface_config o.running canonical) [
      | none ↦ false
      | some config ↦ has_rollback (rollback_commands kind canonical config)
    ];
  }

  topology_target : Text → Context → Option TopologyInterface
  unfolding first_of same_port
  topology_target short context = first_of (λ i. same_port short i.port) context.interfaces

  topology_of : Text → Readings → Context → AssuranceTopologySnapshot
  unfolding topology_target relationships target_links attached minus_set sorted_set lookup lower
      list_or_empty learned_by_link first_of same_port or_text local_host_correlated
      other_topology_fingerprint
  topology_of short readings context = record {
    relationships = relationships (target_links short context.links);
    attached_entity_ids = sorted_set (attached short context);
    learned_behind_entity_ids = sorted_set (
        minus_set
          (list_or_empty (lookup (lower short) readings.learned)
            ++ learned_by_link (target_links short context.links))
          (attached short context));
    expected_relationship = elim (topology_target short context) [
      | none ↦ none
      | some t ↦ t.expected_name
    ];
    reconciliation_state =
        elim (first_of (λ i. same_port short i.interface) context.reconciliation) [
          | none ↦ none
          | some i ↦ i.status
        ];
    target_role = elim (topology_target short context) [
      | none ↦ codes "unknown"
      | some t ↦ or_text (codes "unknown") t.role
    ];
    local_host_correlated = local_host_correlated short context.devices;
    other_topology_fingerprint = other_topology_fingerprint digest short context;
  }

  evidence_of : Text → Context → AssuranceEvidenceSnapshot
  unfolding topology_target or_text evidence_ids target_links
  evidence_of short context = record {
    freshness = elim (topology_target short context) [
      | none ↦ codes "unknown"
      | some t ↦ or_text (codes "unknown") t.freshness
    ];
    evidence_ids = evidence_ids (topology_target short context) (target_links short context.links);
  }

  health_of : Text → AssuranceInterfaceSnapshot → Context → AssuranceHealthSnapshot
  unfolding or_text target_health
  health_of short target context = record {
    connection_state = or_text (codes "unknown") context.connection_state;
    device_health = elim context.health [
      | none ↦ codes "UNKNOWN"
      | some h ↦ or_text (codes "UNKNOWN") h.state
    ];
    target_health = target_health context short;
    target_error_total = target.error_total;
  }

  -- The evidence from the outputs and the context.
  unfoldable pub assemble :
      Text → OperationKind → Text × Text → Context → Outputs → Result AssuranceSnapshot
  unfolding readings_of configuration_of topology_of evidence_of health_of interface_config
      parse_interface_status interface_snapshots target_of others_of
  assemble device_id kind (canonical, short) context o =
      let readings = readings_of o in
      let config = interface_config o.running canonical in
      with_rows readings
        (interface_snapshots short config readings (parse_interface_status o.interfaces))
    where
      with_rows : Readings → Result (List AssuranceInterfaceSnapshot) → Result AssuranceSnapshot
      with_rows readings (err e) = err e
      with_rows readings (ok rows) = ok (record {
        device_id = device_id;
        target_interface = short;
        configuration = configuration_of kind canonical o;
        target = target_of short rows;
        other_interfaces = others_of short rows;
        topology = topology_of short readings context;
        health = health_of short (target_of short rows) context;
        evidence = evidence_of short context;
      })

module _ {S : Type 0} where
  -- A result is an answer without a call of the device.
  unfoldable pub answer : {A : Type 0} → Result A → Exec S A
  answer result r = (result, r)

module _ {S : Type 0} (c : Client S) where
  unfoldable pub read_outputs : Exec S Outputs
  unfolding ◌>>=◌ pure run_and_audit
  read_outputs = do
    interfaces ← run_and_audit c (codes "show_interfaces_status")
    power ← run_and_audit c (codes "show_power_inline")
    counters ← run_and_audit c (codes "show_interfaces_counters_errors")
    addresses ← run_and_audit c (codes "show_mac_address_table")
    running ← run_and_audit c (codes "show_running_config")
    startup ← run_and_audit c (codes "show_startup_config")
    pure (record {
      interfaces = interfaces;
      power = power;
      counters = counters;
      addresses = addresses;
      running = running;
      startup = startup;
    })

  unfoldable pub capture_assurance_snapshot :
      (Text → Text) → Text → Text → OperationKind → Option Text → Context → Exec S AssuranceSnapshot
  unfolding ◌>>=◌ answer canonical_and_short plan_value read_outputs assemble
  capture_assurance_snapshot digest device_id interface kind value context = do
    names ← answer (canonical_and_short interface)
    _ ← answer (plan_value kind value)
    outputs ← read_outputs
    answer (assemble digest device_id kind names context outputs)
