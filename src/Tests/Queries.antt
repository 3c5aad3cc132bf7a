-- ===== src/Tests/Queries.antt =====
-- Runs of the queries for a prefix, and of the line of a neighbor in the file of write_configs.
use log2bgp.Base.{
  ℕ, ◌≡◌, refl, true, false, Option, none, some, List, [], ◌∷◌, ◌++◌, ok, fault, get_elem?,
  null_pointer, read_out_of_bounds, arith,
}
use log2bgp.Base.Words.{ntohl}
use log2bgp.Base.Text.{codes, decimal}
use log2bgp.Msg.{Update}
use log2bgp.Peer.{Peer}
use log2bgp.Threads.{peer_exists}
use log2bgp.Cli.{cmd_init, execute_line, is_space}
use log2bgp.Cli.Answer.{calls}
use log2bgp.Cli.Handler.{proto_bgp_neighbor as neighbor_handler}
use log2bgp.Cli.Table.{cmds}
use log2bgp.Cli.Words.{IsToken}
use log2bgp.Cli.Settings.{proto_bgp_neighbor, peer_params}
use log2bgp.Cli.Roundtrip.{no_space, word-IsToken}
use log2bgp.Cli.Save.{peer_config, write_configs}
use log2bgp.Cli.Restore.{neighbor_config_roundtrip}
use log2bgp.Cli.Buffers.{proto_bgp_peer_rcv_buffer_size}
use log2bgp.Cli.Numbers.{string_to_uint32_t}
use log2bgp.Peer.{default_buffers}
use log2bgp.Cli.Show.{show_bgp_prefix}
use log2bgp.Api.Json.{jsonify_entry}
use log2bgp.Api.Json.Returns.{returns, is_printable, returns-jsonify_entry}
use log2bgp.Api.Prefix.{api_get_prefix, netmask}
use log2bgp.Tests.Data.{daemon, neighbor, one_update}

-- 10.0.0.1, read and printed by functions that know it.
abbrev address : List ℕ
address = codes "10.0.0.1"

abbrev inet_pton : List ℕ → Option ℕ
inet_pton t = some 16777226

abbrev inet_ntop : ℕ → List ℕ
inet_ntop a = address

abbrev far_neighbor : Peer
far_neighbor = record neighbor { p_ip = address; asn = 65001 }

-- No log is sent.
abbrev no_logging : ℕ → Option (List ℕ × ℕ)
no_logging bgp_id = none

address-IsToken : IsToken address
unfolding no_space is_space
address-IsToken = word-IsToken _ _ refl

neighbor_config_roundtrip_example :
    (line : List ℕ) × (rest : List ℕ) × (tokens : List (List ℕ)) × (q : Peer) × (peer_config decimal
        no_logging far_neighbor
      ≡ codes "  !\n" ++ (line ++ (b'\n' ∷ rest)))
    × (execute_line (cmd_init cmds) line ≡ calls neighbor_handler tokens)
    × (proto_bgp_neighbor [] inet_pton inet_ntop tokens daemon
        ≡ ok ([], record daemon { thread_q = neighbor ∷ q ∷ [] }))
    × (q.p_ip ≡ address)
    × (q.asn ≡ 65001)
unfolding peer_exists peer_params
neighbor_config_roundtrip_example =
    neighbor_config_roundtrip decimal [] inet_pton inet_ntop no_logging 16777226 far_neighbor daemon
      address-IsToken (omega arith) refl refl refl

-- The whole file, for a daemon with one neighbor.
write_configs_text :
    write_configs false decimal no_logging
      (codes "1.1.1.1")
      (record daemon { thread_q = far_neighbor ∷ [] })
    ≡ (
      codes "[OK]",
      some (
          codes
            "!\nprotocol bgp 65000\n bgp-id 1.1.1.1\n  !\n  neighbor 10.0.0.1 remote-as 65001\n  neighbor 10.0.0.1 tx-buffer 14600 4096\n  neighbor 10.0.0.1 rx-buffer 14600 4096\n!\n"),
    )
unfolding write_configs decimal
write_configs_text = refl

abbrev a_route : Update
a_route = record one_update {
  as_path = some (record { seg_type = 2; length = 2; seg_value = 65001 ∷ 65002 ∷ [] });
}

returns-jsonify_entry_example :
    returns (jsonify_entry inet_ntop decimal 0 [] a_route) ≡ is_printable a_route
returns-jsonify_entry_example = returns-jsonify_entry inet_ntop decimal 0 [] a_route

-- An AS4_AGGREGATOR without an AGGREGATOR.
jsonify_entry_null_pointer :
    jsonify_entry inet_ntop decimal 0 []
      (record a_route { as4_aggregator = some (record { asn = 70000; origin = 9 }) })
    ≡ fault null_pointer
unfolding jsonify_entry get_elem?
jsonify_entry_null_pointer = refl

-- An ORIGIN of 3.
jsonify_entry_read_out_of_bounds :
    jsonify_entry inet_ntop decimal 0 [] (record a_route { origin = 3 }) ≡ fault read_out_of_bounds
unfolding jsonify_entry get_elem?
jsonify_entry_read_out_of_bounds = refl

netmask_24 : netmask 24 ≡ 16777215
unfolding netmask ntohl
netmask_24 = refl

show_bgp_prefix_absent :
    show_bgp_prefix inet_ntop decimal 0 [] inet_pton
      (codes "show" ∷ codes "ip" ∷ codes "bgp" ∷ address ∷ [])
      []
      daemon.database
    ≡ ok (codes "% Network not in table\n", daemon.database)
unfolding show_bgp_prefix get_elem?
show_bgp_prefix_absent = refl

api_get_prefix_absent :
    api_get_prefix inet_ntop decimal 0 [] inet_pton
      (codes "api-get" ∷ codes "prefix" ∷ address ∷ [])
      []
      daemon.database
    ≡ ok (codes "{\"entries\":[{\"prefix\":\"network not in table\"}]}", daemon.database)
unfolding api_get_prefix
api_get_prefix_absent = refl

-- The buffers of a neighbor that is not connected.
rcv_buffer_size_idle :
    proto_bgp_peer_rcv_buffer_size true
      (codes "neighbor" ∷ address ∷ codes "rx-buffer" ∷ codes "9" ∷ codes "8" ∷ [])
      (record daemon { thread_q = far_neighbor ∷ [] })
    ≡ ok (
      codes "% Peer 10.0.0.1 state is Idle: will resize rx-buffers on Established\n",
      record daemon {
        thread_q =
            record far_neighbor { buffers = record default_buffers { tcp_rx = 9; bgp_rx = 8 } }
            ∷ [];
      },
    )
unfolding proto_bgp_peer_rcv_buffer_size string_to_uint32_t get_elem?
rcv_buffer_size_idle = refl
