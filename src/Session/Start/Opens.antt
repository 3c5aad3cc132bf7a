-- ===== src/Session/Start/Opens.antt =====
-- src/bgp.cpp: init_peer_states retries until an attempt connects, and sends an OPEN.
use log2bgp.Base.{
  ℕ, suc, ◌≡◌, refl, sym, ap, ◌∙◌, Bool, true, false, not, List, [], ◌∷◌, ◌++◌, ok, All, append-nil,
  Bool-cases, ◌⊎◌, inl, inr,
}
use log2bgp.Base.Words.{ℤ, pos, negsuc}
use log2bgp.Msg.{PeerState, MsgType}
use log2bgp.Tcp.{Tcp, disconnect}
use log2bgp.Peer.{Peer}
use log2bgp.Bgp.{Bgp}
use log2bgp.Session.Send.{is_idle, is_update, count_sent, send_and_count, send_packet}
use log2bgp.Session.Send.Wire.{message, up, transmit-up}
use log2bgp.Session.Open.{open_message, send_open}
use log2bgp.Session.Start.{
  Attempt, connect_first, open_streams, open_if, connect, resized, setvbuf_rx, setvbuf_tx,
  resize_buffers, after_connect, attempt, start_loop, init_peer_states,
}

-- No socket for an address, or no connection.
unfoldable pub failing : ℤ × Bool → Bool
failing (negsuc n, succeeds) = true
failing (pos n, succeeds) = not succeeds

abbrev pub AllFail : List (ℤ × Bool) → Type 0
AllFail = All (λ a. failing a ≡ true)

-- An attempt that does not connect.
abbrev pub DoesNotConnect : Attempt → Type 0
DoesNotConnect a = (a.resolved ≡ false) ⊎ AllFail a.addresses

-- An attempt that connects at socket `fd` + 1, opens both streams and resizes all buffers.
pub record Connects (fd : ℕ) (a : Attempt) : Type 0 where
  pub before : List (ℤ × Bool)
  pub behind : List (ℤ × Bool)
  pub found : a.addresses ≡ before ++ ((pos (suc fd), true) ∷ behind)
  pub before_fail : AllFail before
  pub resolves : a.resolved ≡ true
  pub tx : a.tx_opens ≡ true
  pub rx : a.rx_opens ≡ true
  pub bgp_rx : a.bgp_rx_resized ≡ true
  pub bgp_tx : a.bgp_tx_resized ≡ true
  pub tcp_rx : a.tcp_rx_resized ≡ true
  pub tcp_tx : a.tcp_tx_resized ≡ true

-- Addresses that fail leave nothing behind but the number of the socket.
connect_first-AllFail :
    (l rest : List (ℤ × Bool)) (t : Tcp)
    → AllFail l
    → (s : ℤ) × (connect_first (l ++ rest) t ≡ connect_first rest (record t { tcp_socket = s }))
unfolding connect_first failing
connect_first-AllFail [] rest t h = (t.tcp_socket, refl)
connect_first-AllFail ((negsuc n, b) ∷ l) rest t (h, hs) =
    connect_first-AllFail l rest (record t { tcp_socket = negsuc n }) hs
connect_first-AllFail ((pos n, false) ∷ l) rest t (h, hs) =
    connect_first-AllFail l rest (record t { tcp_socket = pos n }) hs
connect_first-AllFail ((pos n, true) ∷ l) rest t (h, hs) = cc

connect-DoesNotConnect :
    (a : Attempt) (t : Tcp)
    → DoesNotConnect a
    → (s : ℤ) × (connect a t ≡ (false, record t { tcp_socket = s }))
unfolding connect open_if connect_first
connect-DoesNotConnect a t (inl h) = (t.tcp_socket, rw (h, connect) refl)
connect-DoesNotConnect a t (inr h) =
    let (s, e) = connect_first-AllFail a.addresses [] t h in
    let f = ap (λ l. connect_first l t) (sym (append-nil a.addresses)) ∙ e in
    elim (Bool-cases a.resolved) [
      | inl r ↦ (s, rw (r, connect) (ap (open_if a) f))
      | inr r ↦ (t.tcp_socket, rw (r, connect) refl)
    ]

connect-Connects :
    (fd : ℕ) (a : Attempt) (t : Tcp) → Connects fd a → connect a t ≡ (true, up fd a.input [] t.wire)
unfolding connect open_if open_streams connect_first
connect-Connects fd a t w =
    let (s, e) =
      connect_first-AllFail w.before ((pos (suc fd), true) ∷ w.behind) t (w.before_fail) in
    rw (w.resolves, connect)
      (ap (open_if a) (ap (λ l. connect_first l t) (w.found) ∙ e) ∙ rw (w.tx, w.rx) refl)

attempt-DoesNotConnect :
    (a : Attempt) (p : Peer)
    → DoesNotConnect a
    → (q : Peer) × (attempt a p ≡ ok q) × (q.state ≡ PeerState.idle) × (q.tcp.wire ≡ p.tcp.wire)
unfolding attempt after_connect disconnect
attempt-DoesNotConnect a p h =
    let (s, e) = connect-DoesNotConnect a p.tcp h in
    (_, ap (after_connect a (record p { state = PeerState.active })) e, refl, refl)

-- The peer of an attempt that connects.
abbrev connected_peer : ℕ → Attempt → Peer → Peer
connected_peer fd a p = record p { tcp = up fd a.input [] p.tcp.wire; state = PeerState.connect }

resize_buffers-Connects :
    (fd : ℕ) (a : Attempt) (p : Peer)
    → Connects fd a
    → resize_buffers a (connected_peer fd a p) ≡ ok (connected_peer fd a p)
unfolding resize_buffers setvbuf_rx setvbuf_tx resized
resize_buffers-Connects fd a p w = rw (w.bgp_rx, w.bgp_tx, w.tcp_rx, w.tcp_tx) refl

attempt-Connects :
    (fd : ℕ) (a : Attempt) (p : Peer) → Connects fd a → attempt a p ≡ ok (connected_peer fd a p)
unfolding attempt after_connect
attempt-Connects fd a p w =
    ap (after_connect a (record p { state = PeerState.active })) (connect-Connects fd a p.tcp w)
    ∙ resize_buffers-Connects fd a p w

tcp-count_sent : (now : ℕ) (p : Peer) → (count_sent now MsgType.open_msg p).tcp ≡ p.tcp
unfolding count_sent
tcp-count_sent now p = refl

send_open-connected_peer :
    (fd : ℕ) (a : Attempt) (b : Bgp) (p : Peer)
    → (send_open a.now b (connected_peer fd a p)).tcp
      ≡ up fd a.input [] (p.tcp.wire ++ message (open_message b) MsgType.open_msg)
unfolding send_open send_packet send_and_count is_idle is_update count_sent
send_open-connected_peer fd a b p =
    transmit-up (open_message b) MsgType.open_msg fd a.input p.tcp.wire

start_loop-DoesNotConnect :
    (fails : List Attempt) (rest : List Attempt) (b : Bgp) (p : Peer)
    → All DoesNotConnect fails
    → (q : Peer) × (start_loop (fails ++ rest) b p ≡ start_loop rest b q)
      × (q.tcp.wire ≡ p.tcp.wire)
unfolding start_loop is_idle
start_loop-DoesNotConnect [] rest b p h = (p, refl, refl)
start_loop-DoesNotConnect (a ∷ fails) rest b p (h, hs) =
    let (q, e, f, g) = attempt-DoesNotConnect a p h in
    let (r, i, j) = start_loop-DoesNotConnect fails rest b q hs in (r, rw (e, f) i, j ∙ g)

start_loop-Connects :
    (fd : ℕ) (a : Attempt) (rest : List Attempt) (b : Bgp) (p : Peer)
    → Connects fd a
    → start_loop (a ∷ rest) b p ≡ ok (send_open a.now b (connected_peer fd a p))
unfolding start_loop is_idle
start_loop-Connects fd a rest b p w = rw (attempt-Connects fd a p w) refl

-- However many attempts do not connect, once one connects, opens both streams and resizes all buffers,
-- init_peer_states returns: the peer is in opensent, its connection is up with all that the remote side
-- sends still to read, and an OPEN message with the settings of the daemon is on the wire.
pub init_peer_states-Connects :
    (fd : ℕ) (fails rest : List Attempt) (a : Attempt) (b : Bgp) (p : Peer)
    → All DoesNotConnect fails
    → Connects fd a
    → (q : Peer) × (init_peer_states (fails ++ (a ∷ rest)) b p ≡ ok q)
      × (q.state ≡ PeerState.opensent)
      × (q.tcp ≡ up fd a.input [] (p.tcp.wire ++ message (open_message b) MsgType.open_msg))
unfolding init_peer_states send_open
init_peer_states-Connects fd fails rest a b p h w =
    let (q, e, f) =
      start_loop-DoesNotConnect fails (a ∷ rest) b (record p { state = PeerState.idle }) h in
    (
      send_open a.now b (connected_peer fd a q),
      e ∙ start_loop-Connects fd a rest b q w,
      refl,
      send_open-connected_peer fd a b q
          ∙ ap (λ l. up fd a.input [] (l ++ message (open_message b) MsgType.open_msg)) f,
    )
