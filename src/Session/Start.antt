-- ===== src/Session/Start.antt =====
-- src/tcp_client.cpp and src/bgp.cpp: how a connection is made, and init_peer_states. What the calls of
-- the system return in one attempt is given; the sizes of the buffers are not kept.
pub mod Opens
use log2bgp.Base.{
  ℕ, zero, suc, ◌+◌, ◌≡◌, refl, ap, ◌∙◌, Bool, true, false, ◌&&◌, Option, none, some, List, [], ◌∷◌,
  ◌++◌, if◌then◌else◌, Result, ok, fault, no_fuel, null_pointer, ◌>>=◌, All,
}
use log2bgp.Base.Words.{ℤ, pos, negsuc}
use log2bgp.Msg.{PeerState, MsgType}
use log2bgp.Tcp.{Tcp, RxStream, connected, disconnect}
use log2bgp.Peer.{Peer}
use log2bgp.Bgp.{Bgp}
use log2bgp.Session.Send.{is_idle}
use log2bgp.Session.Open.{send_open}

-- An attempt: the time; whether getaddrinfo finds addresses; for each of them, what socket() returns and
-- whether ::connect succeeds; whether fdopen opens the streams; what the remote side will send; and
-- whether the buffers are resized.
pub record Attempt : Type 0 where
  pub now : ℕ
  pub resolved : Bool
  pub addresses : List (ℤ × Bool)
  pub tx_opens : Bool
  pub rx_opens : Bool
  pub input : List ℕ
  pub bgp_rx_resized : Bool
  pub bgp_tx_resized : Bool
  pub tcp_rx_resized : Bool
  pub tcp_tx_resized : Bool

-- The loop over the addresses: the first that connects, with the socket that is left in tcp_socket.
unfoldable pub connect_first : List (ℤ × Bool) → Tcp → Bool × Tcp
connect_first [] t = (false, t)
connect_first ((negsuc n, succeeds) ∷ rest) t =
    connect_first rest (record t { tcp_socket = negsuc n })
connect_first ((pos n, true) ∷ rest) t = (true, record t { tcp_socket = pos n })
connect_first ((pos n, false) ∷ rest) t = connect_first rest (record t { tcp_socket = pos n })

-- The streams of a new connection.
unfoldable pub open_streams : Attempt → Tcp → Tcp
open_streams a t = record t {
  tx = if a.tx_opens then some [] else none;
  rx = if a.rx_opens then some (record { pending = a.input; eof = false }) else none;
}

unfoldable pub open_if : Attempt → Bool × Tcp → Bool × Tcp
unfolding open_streams
open_if a (false, t) = (false, t)
open_if a (true, t) = (true, open_streams a t)

-- tcp_client::connect: a stream that is not opened is no failure.
unfoldable pub connect : Attempt → Tcp → Bool × Tcp
unfolding connect_first open_if
connect a t = if a.resolved then open_if a (connect_first a.addresses t) else (false, t)

-- A buffer that cannot be resized: the connection is closed, and the peer idle.
unfoldable pub resized : Bool → Peer → Peer
resized true p = p
resized false p = record p { tcp = disconnect p.tcp; state = PeerState.idle }

-- setvbuf of a stream, which follows the pointer.
unfoldable pub setvbuf_rx : Bool → Option RxStream → Peer → Result Peer
unfolding resized
setvbuf_rx resizes none p = fault null_pointer
setvbuf_rx resizes (some r) p = ok (resized resizes p)

unfoldable pub setvbuf_tx : Bool → Option (List ℕ) → Peer → Result Peer
unfolding resized
setvbuf_tx resizes none p = fault null_pointer
setvbuf_tx resizes (some b) p = ok (resized resizes p)

-- The four buffers.
unfoldable pub resize_buffers : Attempt → Peer → Result Peer
unfolding setvbuf_rx setvbuf_tx resized
resize_buffers a p = do
  q ← setvbuf_rx a.bgp_rx_resized p.tcp.rx p
  r ← setvbuf_tx a.bgp_tx_resized q.tcp.tx q
  ok (resized a.tcp_tx_resized (resized a.tcp_rx_resized r))

-- A turn of the loop of init_peer_states, after connect().
unfoldable pub after_connect : Attempt → Peer → Bool × Tcp → Result Peer
unfolding resize_buffers
after_connect a p (false, t) = ok (record p { tcp = disconnect t; state = PeerState.idle })
after_connect a p (true, t) = resize_buffers a (record p { tcp = t; state = PeerState.connect })

unfoldable pub attempt : Attempt → Peer → Result Peer
unfolding after_connect connect
attempt a p = after_connect a (record p { state = PeerState.active }) (connect a p.tcp)

-- The loop; each turn takes an attempt, and it needs more where these end.
unfoldable pub start_loop : List Attempt → Bgp → Peer → Result Peer
unfolding attempt is_idle send_open
start_loop [] b p = fault no_fuel
start_loop (a ∷ later) b p = do
  q ← attempt a p
  let others = start_loop later b q in if is_idle q.state then others else ok (send_open a.now b q)

-- init_peer_states(peer).
unfoldable pub init_peer_states : List Attempt → Bgp → Peer → Result Peer
unfolding start_loop
init_peer_states attempts b p = start_loop attempts b (record p { state = PeerState.idle })
