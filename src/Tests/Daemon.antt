-- ===== src/Tests/Daemon.antt =====
-- Runs of init_peer_states and of a turn of the loop of init_BGP.
use log2bgp.Base.{fault, use_after_free}
use log2bgp.Base.{◌≡◌, refl, Bool, true, false, [], ◌∷◌, ◌++◌, map, ok, inl, inr, arith}
use log2bgp.Base.Words.{pos, negsuc}
use log2bgp.Msg.{MsgType, PeerState}
use log2bgp.Peer.{Peer}
use log2bgp.Bgp.{Bgp, NlriParse}
use log2bgp.Rib.Queues.{route}
use log2bgp.Rib.Latest.{latest}
use log2bgp.Decode.Nlri.RoundTrip.{queued}
use log2bgp.Base.Bytes.{le_bytes}
use log2bgp.Decode.Nlri.{byte_length}
use log2bgp.Session.Timer.{is_established}
use log2bgp.Decode.Attrib.Encode.{Fits, encode_attrib, value_bytes, be2s, be2}
use log2bgp.Decode.Announce.{announce_packet, announced, encode_attribs}
use log2bgp.Session.Send.Wire.{message, up}
use log2bgp.Session.Open.{open_message}
use log2bgp.Session.Start.{Attempt, init_peer_states}
use log2bgp.Session.Start.Opens.{failing, init_peer_states-Connects}
use log2bgp.Base.{get_elem?, erase_at}
use log2bgp.Session.Lifetime.{init_peer}
use log2bgp.Main.{main_turn}
use log2bgp.Main.Announce.{main_turn-announce_packet}
use log2bgp.Tests.Data.{daemon, neighbor, two_routes, three_attributes}

-- An attempt on an address without a socket and on one that answers, or not.
abbrev attempt_at : Bool → Attempt
attempt_at answers = record {
  now = 100;
  resolved = true;
  addresses = (negsuc 0, false) ∷ (pos 5, answers) ∷ [];
  tx_opens = true;
  rx_opens = true;
  input = 255 ∷ [];
  bgp_rx_resized = true;
  bgp_tx_resized = true;
  tcp_rx_resized = true;
  tcp_tx_resized = true;
}

abbrev unresolved : Attempt
unresolved = record (attempt_at true) { resolved = false }

init_peer_states-Connects_example :
    (q : Peer) × (init_peer_states
        (unresolved ∷ attempt_at false ∷ attempt_at true ∷ [])
        daemon
        neighbor
      ≡ ok q)
    × (q.state ≡ PeerState.opensent)
    × (q.tcp ≡ up 4 (255 ∷ []) [] ([] ++ message (open_message daemon) MsgType.open_msg))
unfolding failing
init_peer_states-Connects_example =
    init_peer_states-Connects 4 (unresolved ∷ attempt_at false ∷ []) [] (attempt_at true) daemon
      neighbor (inl refl, (inr (refl, (refl, tt)), tt))
      (record {
        before = (negsuc 0, false) ∷ [];
        behind = [];
        found = refl;
        before_fail = (refl, tt);
        resolves = refl;
        tx = refl;
        rx = refl;
        bgp_rx = refl;
        bgp_tx = refl;
        tcp_rx = refl;
        tcp_tx = refl;
      })

-- An established neighbor with a message in its queue, behind one that is idle.
abbrev speaker : Peer
speaker = record neighbor {
  state = PeerState.established;
  hold_time = 180;
  keep_alive = 60;
  in_queue = announce_packet three_attributes two_routes ∷ [];
}

abbrev idle_peer : Peer
idle_peer = record neighbor { bgp_id = 8 }

abbrev two_peers : Bgp
two_peers = record daemon { thread_q = idle_peer ∷ speaker ∷ [] }

main_turn-announce_packet_example :
    (c : Bgp) × (main_turn 100 two_peers ≡ ok c)
    × (route (131338, 7) c
        ≡ latest
            (131338, 7)
            (map (queued NlriParse.update 100 7 (announced three_attributes)) two_routes)
            (route (131338, 7) two_peers))
unfolding is_established encode_attribs encode_attrib Fits byte_length value_bytes be2s be2 le_bytes
main_turn-announce_packet_example =
    main_turn-announce_packet 100 three_attributes two_routes (131338, 7) two_peers (idle_peer ∷ [])
      [] speaker refl (refl, tt) tt refl (omega arith) refl (omega arith)
      (tt, (tt, (omega arith, tt)))
      ((omega arith, omega arith, omega arith), ((omega arith, omega arith, omega arith), tt)) refl
      refl

-- A daemon that stops deletes the peer, which is read after it is freed.
init_peer_stops :
    init_peer 0 [] (record daemon { stop_and_exit_instance = true }) neighbor ≡ fault use_after_free
unfolding init_peer get_elem? erase_at
init_peer_stops = refl
