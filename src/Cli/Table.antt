-- ===== src/Cli/Table.antt =====
-- include/cli/bgp_command_struct.h: the table of commands, up to the entry without a name that ends it.
use log2bgp.Base.Text.{codes}
use log2bgp.Cli.{Command, command, Commands, no_command, ◌+:◌}
use log2bgp.Cli.Handler.{
  api_get_all_origin_as, api_get_prefix, api_get_private_origin_as, api_get_public_origin_as,
  kill_all_signal, proto_bgp_attribute_aspath_translate_value,
  proto_bgp_attribute_atomicaggr_translate_value, proto_bgp_attribute_bgp_id_translate_value,
  proto_bgp_attribute_community_translate_value, proto_bgp_attribute_localpref_translate_value,
  proto_bgp_attribute_med_translate_value, proto_bgp_attribute_nexthop_translate_value,
  proto_bgp_attribute_origin_translate_value, proto_bgp_attribute_v4nexthop_translate_value,
  proto_bgp_neighbor, proto_bgp_peer_attribute, proto_bgp_peer_rcv_buffer_size,
  proto_bgp_peer_snd_buffer_size, proto_bgp_peer_timers, proto_bgp_toggle_update_dump, set_bgp_id,
  set_peer_logging, show, show_bgp_adj_rib_in, show_bgp_adj_rib_wdrawn, show_bgp_neighbors,
  show_bgp_prefix, write_configs,
}

abbrev api_get_command : Command
api_get_command = command (codes "api-get") api_get_prefix (
    command (codes "prefix") api_get_prefix
      (command (codes "<x.x.x.x>") api_get_prefix no_command +: no_command)
    +: command (codes "all-from-asn") api_get_all_origin_as (
        command (codes "<ASN>") api_get_all_origin_as
          (command (codes "<LENGTH>") api_get_all_origin_as no_command +: no_command)
        +: no_command)
    +: command (codes "all-public-asn") api_get_public_origin_as (
        command (codes "<ASN>") api_get_public_origin_as
          (command (codes "<LENGTH>") api_get_public_origin_as no_command +: no_command)
        +: no_command)
    +: command (codes "all-private-asn") api_get_private_origin_as (
        command (codes "<ASN>") api_get_private_origin_as
          (command (codes "<LENGTH>") api_get_private_origin_as no_command +: no_command)
        +: no_command)
    +: no_command)

abbrev show_command : Command
show_command = command (codes "show") show (
    command (codes "bgp") show (
      command (codes "ipv4") show_bgp_prefix
        (command (codes "<x.x.x.x>") show_bgp_prefix no_command +: no_command)
      +: command (codes "neighbors") show_bgp_neighbors no_command
      +: command (codes "adj-rib-in") show_bgp_adj_rib_in no_command
      +: command (codes "rib-withdrawn") show_bgp_adj_rib_wdrawn no_command
      +: no_command)
    +: no_command)

abbrev write_command : Command
write_command = command (codes "write") write_configs no_command

abbrev dumper_command : Command
dumper_command = command (codes "dumper") proto_bgp_toggle_update_dump (
    command (codes "on") proto_bgp_toggle_update_dump no_command
    +: command (codes "off") proto_bgp_toggle_update_dump no_command
    +: no_command)

-- The part below "attribute".
abbrev attribute_commands : Commands
attribute_commands =
    command (codes "bgp-id") proto_bgp_attribute_bgp_id_translate_value (
      command (codes "alias") proto_bgp_attribute_bgp_id_translate_value (
        command (codes "<value>") proto_bgp_attribute_bgp_id_translate_value no_command
        +: no_command)
      +: no_command)
    +: command (codes "origin") proto_bgp_attribute_origin_translate_value (
        command (codes "alias") proto_bgp_attribute_origin_translate_value no_command +: no_command)
    +: command (codes "as-path") proto_bgp_attribute_aspath_translate_value (
        command (codes "alias") proto_bgp_attribute_aspath_translate_value (
          command (codes "<value>") proto_bgp_attribute_aspath_translate_value (
            command (codes "<new value>") proto_bgp_attribute_aspath_translate_value no_command
            +: no_command)
          +: no_command)
        +: no_command)
    +: command (codes "next-hop") proto_bgp_attribute_nexthop_translate_value (
        command (codes "alias") proto_bgp_attribute_nexthop_translate_value (
          command (codes "ipv4") proto_bgp_attribute_v4nexthop_translate_value (
            command (codes "<x.x.x.x>") proto_bgp_attribute_v4nexthop_translate_value (
              command (codes "<value>") proto_bgp_attribute_v4nexthop_translate_value no_command
              +: no_command)
            +: no_command)
          +: command (codes "ipv6") proto_bgp_attribute_v4nexthop_translate_value (
              command (codes "<x:x:x:x:x:x:x:>") proto_bgp_attribute_v4nexthop_translate_value (
                command (codes "<value>") proto_bgp_attribute_v4nexthop_translate_value no_command
                +: no_command)
              +: no_command)
          +: no_command)
        +: no_command)
    +: command (codes "med") proto_bgp_attribute_med_translate_value (
        command (codes "alias") proto_bgp_attribute_med_translate_value (
          command (codes "<value>") proto_bgp_attribute_med_translate_value no_command
          +: no_command)
        +: no_command)
    +: command (codes "local-pref") proto_bgp_attribute_localpref_translate_value (
        command (codes "alias") proto_bgp_attribute_localpref_translate_value (
          command (codes "<value>") proto_bgp_attribute_localpref_translate_value no_command
          +: no_command)
        +: no_command)
    +: command (codes "atomic-aggr") proto_bgp_attribute_atomicaggr_translate_value (
        command (codes "alias") proto_bgp_attribute_atomicaggr_translate_value (
          command (codes "boolean") proto_bgp_attribute_atomicaggr_translate_value no_command
          +: no_command)
        +: no_command)
    +: command (codes "community") proto_bgp_attribute_community_translate_value (
        command (codes "alias") proto_bgp_attribute_community_translate_value (
          command (codes "<0-65535>") proto_bgp_attribute_community_translate_value (
            command (codes "<value>") proto_bgp_attribute_community_translate_value no_command
            +: no_command)
          +: no_command)
        +: no_command)
    +: no_command

abbrev neighbor_command : Command
neighbor_command = command (codes "neighbor") proto_bgp_neighbor (
    command (codes "<x.x.x.x>") proto_bgp_neighbor (
      command (codes "logging") set_peer_logging (
        command (codes "host") set_peer_logging (
          command (codes "<x.x.x.x>") set_peer_logging
            (command (codes "<port>") set_peer_logging no_command +: no_command)
          +: no_command)
        +: no_command)
      +: command (codes "rx-buffer") proto_bgp_peer_rcv_buffer_size (
          command (codes "<512-131072>") proto_bgp_peer_rcv_buffer_size
            (command (codes "<512-131072>") proto_bgp_peer_rcv_buffer_size no_command +: no_command)
          +: no_command)
      +: command (codes "tx-buffer") proto_bgp_peer_snd_buffer_size (
          command (codes "<512-131072>") proto_bgp_peer_snd_buffer_size
            (command (codes "<512-131072>") proto_bgp_peer_snd_buffer_size no_command +: no_command)
          +: no_command)
      +: command (codes "remote-as") proto_bgp_neighbor
          (command (codes "<1-65535>") proto_bgp_neighbor no_command +: no_command)
      +: command (codes "timers") proto_bgp_peer_timers (
          command (codes "<0-65535>") proto_bgp_peer_timers
            (command (codes "<0-65535>") proto_bgp_peer_timers no_command +: no_command)
          +: no_command)
      +: command (codes "attribute") proto_bgp_peer_attribute attribute_commands
      +: no_command)
    +: no_command)

abbrev bgp_id_command : Command
bgp_id_command =
    command (codes "bgp-id") set_bgp_id
      (command (codes "<x.x.x.x>") set_bgp_id no_command +: no_command)

abbrev kill_all_command : Command
kill_all_command = command (codes "kill-all") kill_all_signal no_command

-- The table in the order of the file.
abbrev pub cmds : Commands
cmds =
    api_get_command +: show_command +: write_command +: dumper_command +: neighbor_command
    +: bgp_id_command +: kill_all_command +: no_command
