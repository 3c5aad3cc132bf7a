-- ===== src/Cli/Save.antt =====
-- cli/bgp_cli.cpp: write_configs, the file of commands that it writes. The text of the BGP id and
-- the host and port that the log of a BGP id is sent to are given.
use log2bgp.Base.{ℕ, Bool, true, false, Option, none, some, List, [], ◌∷◌, ◌++◌, if◌then◌else◌}
use log2bgp.Base.Text.{codes, decimal}
use log2bgp.Peer.{Peer}
use log2bgp.Bgp.{Bgp}
use log2bgp.Cli.Config.{alias_config}

-- A neighbor: its AS.
unfoldable pub neighbor_line : Peer → List ℕ
neighbor_line p =
    codes "  neighbor " ++ (p.p_ip ++ (codes " remote-as " ++ (decimal p.asn ++ codes "\n")))

-- The two sizes of a direction.
unfoldable pub buffer_line : List ℕ → List ℕ → ℕ → ℕ → List ℕ
buffer_line ip direction tcp bgp =
    codes "  neighbor "
    ++ (ip ++ (direction ++ (decimal tcp ++ (b' ' ∷ (decimal bgp ++ codes "\n")))))

unfoldable pub logging_line : List ℕ → Option (List ℕ × ℕ) → List ℕ
logging_line ip none = []
logging_line ip (some (host, port)) =
    codes "neighbor "
    ++ (ip ++ (codes " logging host " ++ (host ++ (b' ' ∷ (decimal port ++ codes "\n")))))

-- The lines of a peer.
unfoldable pub peer_config : (ℕ → List ℕ) → (ℕ → Option (List ℕ × ℕ)) → Peer → List ℕ
unfolding neighbor_line buffer_line logging_line alias_config
peer_config ip_to_string logging p =
    codes "  !\n"
    ++ (neighbor_line p
        ++ (buffer_line p.p_ip (codes " tx-buffer ") p.buffers.tcp_tx p.buffers.bgp_tx
            ++ (buffer_line p.p_ip (codes " rx-buffer ") p.buffers.tcp_rx p.buffers.bgp_rx
                ++ (logging_line p.p_ip (logging p.bgp_id)
                    ++ (if p.is_aliasing
                        then alias_config ip_to_string p.p_ip p.translate_attribs
                        else [])))))

unfoldable pub peers_config : (ℕ → List ℕ) → (ℕ → Option (List ℕ × ℕ)) → List Peer → List ℕ
unfolding peer_config
peers_config ip_to_string logging [] = []
peers_config ip_to_string logging (p ∷ ps) =
    peer_config ip_to_string logging p ++ peers_config ip_to_string logging ps

-- The file.
unfoldable pub config_file : (ℕ → List ℕ) → (ℕ → Option (List ℕ × ℕ)) → List ℕ → Bgp → List ℕ
unfolding peers_config
config_file ip_to_string logging bgp_id_ip b =
    codes "!\n"
    ++ (codes "protocol bgp "
        ++ (decimal b.asn
            ++ (codes "\n bgp-id "
                ++ (bgp_id_ip
                    ++ (codes "\n"
                        ++ ((if b.dumper_on_off then codes " dumper on\n!\n" else [])
                            ++ (peers_config ip_to_string logging b.thread_q ++ codes "!\n")))))))

-- write_configs: what is sent back, and the file, if it can be opened.
unfoldable pub write_configs :
    Bool → (ℕ → List ℕ) → (ℕ → Option (List ℕ × ℕ)) → List ℕ → Bgp → List ℕ × Option (List ℕ)
unfolding config_file
write_configs true ip_to_string logging bgp_id_ip b = (codes "[FAILED]", none)
write_configs false ip_to_string logging bgp_id_ip b =
    (codes "[OK]", some (config_file ip_to_string logging bgp_id_ip b))
