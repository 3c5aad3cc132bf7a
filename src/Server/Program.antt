-- ===== src/Server/Program.antt =====
-- src/tcp_server.cpp and the table of include/cli/bgp_command_struct.h: what a connection uses of the
-- daemon itself. The commands that only print, and those that change nothing but the log, are given
-- by `others`; so are the calls of the system.
use log2bgp.Base.{ℕ, Bool, Option, List, Result, ok}
use log2bgp.Peer.{TranslateAttrib}
use log2bgp.Bgp.{Bgp}
use log2bgp.Cli.{Handler, Answer, execute_line, cmd_init}
use log2bgp.Cli.Table.{cmds}
use log2bgp.Cli.Settings
use log2bgp.Cli.Buffers
use log2bgp.Server.{Executor}

module _ (inet_pton inet_aton : List ℕ → Option ℕ) (inet_ntop : ℕ → List ℕ)
    (sort : List TranslateAttrib → List TranslateAttrib) (stack : ℕ) (heap : List ℕ)
    (resizes : Bool) (others : Handler → List (List ℕ) → Bgp → Result (List ℕ × Bgp)) where
  -- The call of the function that a command names.
  unfoldable pub call : Handler → List (List ℕ) → Bgp → Result (List ℕ × Bgp)
  call Handler.kill_all_signal tokens b = ok (Settings.kill_all_signal b)
  call Handler.proto_bgp_toggle_update_dump tokens b =
      Settings.proto_bgp_toggle_update_dump tokens b
  call Handler.set_bgp_id tokens b = Settings.set_bgp_id inet_aton stack tokens b
  call Handler.proto_bgp_neighbor tokens b =
      Settings.proto_bgp_neighbor heap inet_pton inet_ntop tokens b
  call Handler.proto_bgp_peer_rcv_buffer_size tokens b =
      Buffers.proto_bgp_peer_rcv_buffer_size resizes tokens b
  call Handler.proto_bgp_peer_snd_buffer_size tokens b =
      Buffers.proto_bgp_peer_snd_buffer_size resizes tokens b
  call Handler.proto_bgp_attribute_bgp_id_translate_value tokens b =
      Settings.proto_bgp_attribute_bgp_id_translate_value sort tokens b
  call Handler.proto_bgp_attribute_origin_translate_value tokens b =
      Settings.proto_bgp_attribute_origin_translate_value sort tokens b
  call Handler.proto_bgp_attribute_aspath_translate_value tokens b =
      Settings.proto_bgp_attribute_aspath_translate_value sort tokens b
  call Handler.proto_bgp_attribute_v4nexthop_translate_value tokens b =
      Settings.proto_bgp_attribute_v4nexthop_translate_value sort inet_pton tokens b
  call Handler.proto_bgp_attribute_med_translate_value tokens b =
      Settings.proto_bgp_attribute_med_translate_value sort tokens b
  call Handler.proto_bgp_attribute_localpref_translate_value tokens b =
      Settings.proto_bgp_attribute_localpref_translate_value sort tokens b
  call Handler.proto_bgp_attribute_community_translate_value tokens b =
      Settings.proto_bgp_attribute_community_translate_value sort tokens b
  call handler tokens b = others handler tokens b

  unfoldable pub perform : Answer → Bgp → Result (List ℕ × Bgp)
  unfolding call
  perform (Answer.said text) b = ok (text, b)
  perform (Answer.calls handler tokens) b = call handler tokens b

  -- tcp_execute_line and stop_and_exit of the daemon.
  abbrev pub program : Executor Bgp
  program = record {
    execute = λ text b. perform (execute_line (cmd_init cmds) text) b;
    stop_and_exit = λ b. b.stop_and_exit_instance;
  }
