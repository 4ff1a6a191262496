-- ===== src/Registry/Actions.antt =====
-- Descriptions, the read-only commands and the named write actions.
pub mod Safety
use switch_ops.Prelude.{
  ℕ, Bool, ◌&&◌, ◌||◌, Option, none, some, List, [], ◌∷◌, ltb, leb, ◌==◌, if◌then◌else◌, length,
  all, any, Result, ok, err, command_not_allowed, other_error, empty_description,
  description_too_long, description_characters, unknown_command, unknown_action, missing_interface,
  missing_value, ◌>>=◌,
}
use switch_ops.Text.{Text, codes, strip, contains, replace}
use switch_ops.Text.Dict.{Dict, lookup}
use switch_ops.Registry.Names.{assert_interface_writable}

unfoldable pub read_only_commands : Dict Text
read_only_commands =
    (codes "terminal_length_0", codes "terminal length 0")
    ∷ (codes "show_version", codes "show version")
    ∷ (codes "show_inventory", codes "show inventory")
    ∷ (codes "show_running_config", codes "show running-config")
    ∷ (codes "show_startup_config", codes "show startup-config")
    ∷ (codes "show_ip_interface_brief", codes "show ip interface brief")
    ∷ (codes "show_interfaces_status", codes "show interfaces status")
    ∷ (codes "show_interfaces_counters_errors", codes "show interfaces counters errors")
    ∷ (codes "show_power_inline", codes "show power inline")
    ∷ (codes "show_env_all", codes "show env all")
    ∷ (codes "show_processes_cpu", codes "show processes cpu")
    ∷ (codes "show_memory_statistics", codes "show memory statistics")
    ∷ (codes "show_mac_address_table", codes "show mac address-table")
    ∷ (codes "show_logging", codes "show logging")
    ∷ (codes "show_interfaces", codes "show interfaces")
    ∷ (codes "show_processes_cpu_history", codes "show processes cpu history")
    ∷ (codes "show_memory", codes "show memory")
    ∷ (codes "show_interfaces_switchport", codes "show interfaces switchport")
    ∷ (codes "show_vlan_brief", codes "show vlan brief")
    ∷ (codes "show_spanning_tree", codes "show spanning-tree")
    ∷ (codes "show_etherchannel_summary", codes "show etherchannel summary")
    ∷ (codes "show_cdp_neighbors_detail", codes "show cdp neighbors detail")
    ∷ (codes "show_lldp_neighbors", codes "show lldp neighbors")
    ∷ (codes "show_lldp_neighbors_detail", codes "show lldp neighbors detail")
    ∷ (codes "show_ip_arp", codes "show ip arp")
    ∷ (codes "show_interfaces_trunk", codes "show interfaces trunk")
    ∷ (codes "show_environment", codes "show environment")
    ∷ (codes "show_environment_all", codes "show environment all")
    ∷ (codes "show_ip_route", codes "show ip route")
    ∷ (codes "show_ip_protocols", codes "show ip protocols")
    ∷ (codes "show_ip_ospf_neighbor", codes "show ip ospf neighbor")
    ∷ (codes "show_ip_eigrp_neighbors", codes "show ip eigrp neighbors")
    ∷ (codes "show_bgp_ipv4_unicast_summary", codes "show bgp ipv4 unicast summary")
    ∷ (codes "show_standby_brief", codes "show standby brief")
    ∷ (codes "show_vrf", codes "show vrf")
    ∷ (codes "show_bfd_neighbors", codes "show bfd neighbors")
    ∷ (codes "show_ip_sla_summary", codes "show ip sla summary")
    ∷ (codes "show_nve_peers", codes "show nve peers")
    ∷ (codes "show_bgp_l2vpn_evpn_summary", codes "show bgp l2vpn evpn summary")
    ∷ (
      codes "show_segment_routing_mpls_sid_map",
      codes "show segment-routing mpls connected-prefix-sid-map",
    )
    ∷ (codes "show_segment_routing_srv6_locator", codes "show segment-routing srv6 locator")
    ∷ (codes "show_running_config_begin_vty", codes "show running-config | begin line vty")
    ∷ []

unfoldable pub resolve_read_command : Text → Result Text
unfolding lookup read_only_commands
resolve_read_command symbol = elim (lookup symbol read_only_commands) [
  | none ↦ err (command_not_allowed unknown_command)
  | some command ↦ ok command
]

-- `_DESCRIPTION_OK`
pub description_ok : ℕ → Bool
description_ok c =
    (leb b'a' c && leb c b'z')
    || (leb b'A' c && leb c b'Z')
    || (leb b'0' c && leb c b'9')
    || c == b' '
    || c == b'-'
    || c == b'_'
    || c == b'.'
    || c == b'/'

check_description : Text → Result Text
unfolding description_ok
check_description value =
    if ltb 64 (length value)
    then err (command_not_allowed description_too_long)
    else if all description_ok value
    then ok value
    else err (command_not_allowed description_characters)

-- The test for an empty text stands before the strip, as in the source.
unfoldable pub sanitize_description : Text → Result Text
unfolding check_description strip
sanitize_description [] = err (command_not_allowed empty_description)
sanitize_description (c ∷ s) = check_description (strip (c ∷ s))

unfoldable pub safe_write_actions : Dict (List Text)
safe_write_actions =
    (
      codes "enable_port",
      codes "configure terminal"
          ∷ codes "interface {iface}"
          ∷ codes "no shutdown"
          ∷ codes "end"
          ∷ [],
    )
    ∷ (
      codes "disable_port",
      codes "configure terminal" ∷ codes "interface {iface}" ∷ codes "shutdown" ∷ codes "end" ∷ [],
    )
    ∷ (
      codes "set_port_description",
      codes "configure terminal"
          ∷ codes "interface {iface}"
          ∷ codes "description {value}"
          ∷ codes "end"
          ∷ [],
    )
    ∷ (
      codes "enable_poe",
      codes "configure terminal"
          ∷ codes "interface {iface}"
          ∷ codes "power inline auto"
          ∷ codes "end"
          ∷ [],
    )
    ∷ (codes "save_config", codes "write memory" ∷ [])
    ∷ (codes "backup_config", codes "terminal length 0" ∷ codes "show running-config" ∷ [])
    ∷ []

pub record WriteAction : Type 0 where
  pub name : Text
  pub commands : List Text
  pub interface : Option Text

abbrev pub iface_mark : Text
iface_mark = codes "{iface}"

abbrev pub value_mark : Text
value_mark = codes "{value}"

-- The interface is resolved only where a line of the template names one.
resolve_interface : List Text → Option Text → Result (Option Text)
unfolding contains assert_interface_writable
resolve_interface template interface =
    if any (contains iface_mark) template
    then elim interface [
      | none ↦ err (command_not_allowed missing_interface)
      | some name ↦ (do canonical ← assert_interface_writable name; ok (some canonical))
    ]
    else ok none

resolve_value : List Text → Option Text → Result (Option Text)
unfolding contains sanitize_description
resolve_value template value =
    if any (contains value_mark) template
    then elim value [
      | none ↦ err (command_not_allowed missing_value)
      | some raw ↦ (do safe ← sanitize_description raw; ok (some safe))
    ]
    else ok none

-- One `if "{mark}" in out` of the loop; the assertion is an AssertionError.
substitute : Text → Option Text → Text → Result Text
unfolding contains replace
substitute mark filling out =
    if contains mark out
    then elim filling [ none ↦ err other_error | some text ↦ ok (replace mark text out) ]
    else ok out

resolve_line : Option Text → Option Text → Text → Result Text
unfolding substitute
resolve_line iface value cmd = do
  out ← substitute iface_mark iface cmd
  substitute value_mark value out

resolve_lines : Option Text → Option Text → List Text → Result (List Text)
unfolding resolve_line
resolve_lines iface value [] = ok []
resolve_lines iface value (cmd ∷ rest) = do
  out ← resolve_line iface value cmd
  outs ← resolve_lines iface value rest
  ok (out ∷ outs)

build_from : Text → List Text → Option Text → Option Text → Result WriteAction
unfolding resolve_interface resolve_value resolve_lines
build_from action template interface value = do
  canonical ← resolve_interface template interface
  safe ← resolve_value template value
  resolved ← resolve_lines canonical safe template
  ok (record { name = action; commands = resolved; interface = canonical })

unfoldable pub build_write_action : Text → Option Text → Option Text → Result WriteAction
unfolding lookup safe_write_actions build_from
build_write_action action interface value = elim (lookup action safe_write_actions) [
  | none ↦ err (command_not_allowed unknown_action)
  | some template ↦ build_from action template interface value
]
