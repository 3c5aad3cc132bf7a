-- ===== src/Session/Lifetime.antt =====
-- src/bgp.cpp: init_peer, the sessions of a peer one after the other, until it is deleted or the
-- daemon stops.
use log2bgp.Base.{
  ℕ, suc, take, drop, ◌++◌, Bool, true, false, not, ◌&&◌, List, [], ◌∷◌, Result, ok, fault, no_fuel,
  ◌>>=◌,
}
use log2bgp.Msg.{PeerState}
use log2bgp.Peer.{Peer}
use log2bgp.Bgp.{Bgp}
use log2bgp.Threads.{delete_peer}
use log2bgp.Session.Receive.{Turn}
use log2bgp.Session.Start.{Attempt, init_peer_states}
use log2bgp.Session.Established.{peer_established}

-- What a turn of the loop is given: the attempts to connect, and the turns of the read loop.
pub record Round : Type 0 where
  pub attempts : List Attempt
  pub fuel : ℕ
  pub turns : ℕ → Turn

unfoldable pub is_deleted : PeerState → Bool
is_deleted PeerState.deleted = true
is_deleted _ = false

unfoldable pub goes_on : Bgp → Peer → Bool
unfolding is_deleted
goes_on b p = not (is_deleted p.state) && not b.stop_and_exit_instance

-- The loop; each turn takes a round, and it needs more where these end.
unfoldable pub peer_loop : List Round → Bgp → Peer → Result (Peer × Bgp)
unfolding goes_on init_peer_states peer_established
peer_loop [] b p = elim (goes_on b p) [ true ↦ fault no_fuel | false ↦ ok (p, b) ]
peer_loop (r ∷ rounds) b p = elim (goes_on b p) [
  | false ↦ ok (p, b)
  | true ↦ do
    opened ← init_peer_states r.attempts b p
    (closed, b') ← peer_established r.fuel r.turns opened b
    peer_loop rounds b' closed
]

-- init_peer(bgp, peer), of the peer that stands at `self` of the table.
unfoldable pub init_peer : ℕ → List Round → Bgp → Peer → Result Bgp
unfolding peer_loop delete_peer drop
init_peer self rounds b p = do
  (q, b') ← peer_loop rounds b p
  peers ← delete_peer self (take self b'.thread_q ++ (q ∷ drop (suc self) b'.thread_q))
  ok (record b' { thread_q = peers })
