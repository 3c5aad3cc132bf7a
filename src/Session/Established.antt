-- ===== src/Session/Established.antt =====
-- src/bgp.cpp: peer_established, its loop and what follows it, and init_peer_states.
pub mod States
pub mod Unread
pub mod Ends
pub mod Agreement
use log2bgp.Base.{
  ℕ, zero, suc, ◌+◌, Bool, true, false, not, ◌&&◌, Option, none, some, List, [], ◌∷◌, length,
  if◌then◌else◌, Result, ok, fault, no_fuel, ◌>>=◌,
}
use log2bgp.Msg.{PeerState}
use log2bgp.Tcp.{Tcp, connected, disconnect}
use log2bgp.Peer.{Peer, BytesTxRx, ByteTxRxCurrent}
use log2bgp.Bgp.{Bgp}
use log2bgp.Rib.{flush_peer_loop}
use log2bgp.Session.Send.{is_idle, send_packet}
use log2bgp.Session.Open.{send_open}
use log2bgp.Session.Receive.{Turn, receive}

-- while (connected() && state != idle && !stop_and_exit()), on fuel; turn k is given `turns k`.
unfoldable pub receive_loop : ℕ → (ℕ → Turn) → Bgp → Peer → Result Peer
unfolding receive connected is_idle
receive_loop zero turns bgp p = fault no_fuel
receive_loop (suc fuel) turns bgp p =
    elim (connected p.tcp && not (is_idle p.state) && not bgp.stop_and_exit_instance) [
      | false ↦ ok p
      | true ↦ receive (turns fuel) bgp p >>= receive_loop fuel turns bgp
    ]

-- The input that the loop can still read.
unfoldable pub pending_bytes : Tcp → ℕ
pending_bytes t = elim t.rx [ none ↦ 0 | some r ↦ length r.pending ]

-- After the loop: the routes of the peer are flushed, the connection closed, the queue emptied. The
-- counter in_q is kept.
unfoldable pub close_session : Peer → Bgp → Peer × Bgp
unfolding flush_peer_loop disconnect
close_session p b =
    let (rib, current) =
      flush_peer_loop (length b.adj_rib_in) p.bgp_id b.adj_rib_in p.prefixes.current.rx in
    (
      record p {
        prefixes = record p.prefixes { current = record p.prefixes.current { rx = current } };
        tcp = disconnect p.tcp;
        up_since = 0;
        in_queue = [];
      },
      record b { adj_rib_in = rib },
    )

-- peer_established(peer).
unfoldable pub peer_established : ℕ → (ℕ → Turn) → Peer → Bgp → Result (Peer × Bgp)
unfolding receive_loop close_session
peer_established fuel turns p b = receive_loop fuel turns b p >>= λ q. ok (close_session q b)
