-- ===== src/World/Connect.antt =====
-- src/bgp.cpp and src/tcp_client.cpp: the timers of a peer, and how it connects.
use log2bgp.Base.{
  ℕ, ◌+◌, Bool, true, false, Option, none, some, List, [], ◌∷◌, leb, Bool-cases, inl, inr,
}
use log2bgp.Base.Words.{ℤ, pos, negsuc}
use log2bgp.Msg.{MsgType, PeerState}
use log2bgp.Tcp.{Tcp, RxStream, disconnect}
use log2bgp.Peer.{Peer}
use log2bgp.Bgp.{Bgp}
use log2bgp.Session.Send.{notification}
use log2bgp.Session.Open.{open_message, send_open}
use log2bgp.Session.Timer.{expire, check_timers, is_established, hold_timer_expired}
use log2bgp.Session.Start.{
  Attempt, connect_first, open_streams, open_if, connect, resized, setvbuf_rx, setvbuf_tx,
  resize_buffers, after_connect, attempt,
}
use log2bgp.World.Yields.{Yields, Yields->>=}
use log2bgp.World.Bytes.{Bytes}
use log2bgp.World.Peers.{PeerFits, input_of, send_packet-PeerFits}

-- A connection that is closed has nothing to read.
closed-PeerFits :
    (s : PeerState) (p : Peer)
    → PeerFits p
    → PeerFits (record p { tcp = disconnect p.tcp; state = s })
unfolding disconnect input_of
closed-PeerFits s p w = record { id = w.id; queue = w.queue; input = tt }

pub hold_timer_expired-PeerFits :
    (now : ℕ) (p : Peer) → PeerFits p → PeerFits (hold_timer_expired now p).1
unfolding hold_timer_expired check_timers expire notification
hold_timer_expired-PeerFits now p w = elim (Bool-cases (is_established p.state)) [
  | inr e ↦ rw (e, hold_timer_expired) w
  | inl e ↦ elim (Bool-cases (leb (p.last_io.last_read + p.hold_time) now)) [
    | inl h ↦
        rw (e, h, hold_timer_expired, check_timers)
          (closed-PeerFits PeerState.idle _ (send_packet-PeerFits now _ MsgType.notification p w))
    | inr h ↦ elim (Bool-cases (leb (p.keepaliv.last_tx + p.keep_alive) now)) [
      | inl k ↦
          rw (e, h, k, hold_timer_expired, check_timers)
            (send_packet-PeerFits now [] MsgType.keepalive p w)
      | inr k ↦ rw (e, h, k, hold_timer_expired, check_timers) w
    ]
  ]
]

-- The remote side sends bytes.
abbrev pub AttemptFits : Attempt → Type 0
AttemptFits a = Bytes a.input

abbrev TcpFits : Bool × Tcp → Type 0
TcpFits (b, t) = Bytes (input_of t.rx)

connect_first-TcpFits :
    (l : List (ℤ × Bool)) (t : Tcp) → Bytes (input_of t.rx) → TcpFits (connect_first l t)
unfolding connect_first
connect_first-TcpFits [] t h = h
connect_first-TcpFits ((negsuc n, b) ∷ l) t h =
    connect_first-TcpFits l (record t { tcp_socket = negsuc n }) h
connect_first-TcpFits ((pos n, true) ∷ l) t h = h
connect_first-TcpFits ((pos n, false) ∷ l) t h =
    connect_first-TcpFits l (record t { tcp_socket = pos n }) h

open_if-TcpFits : (a : Attempt) (x : Bool × Tcp) → AttemptFits a → TcpFits x → TcpFits (open_if a x)
unfolding open_if open_streams input_of
open_if-TcpFits a (false, t) f h = h
open_if-TcpFits a (true, t) f h = elim (Bool-cases a.rx_opens) [ inl e ↦ rw e f | inr e ↦ rw e tt ]

connect-TcpFits :
    (a : Attempt) (t : Tcp) → AttemptFits a → Bytes (input_of t.rx) → TcpFits (connect a t)
unfolding connect
connect-TcpFits a t f h = elim (Bool-cases a.resolved) [
  | inl e ↦
      rw e
        (open_if-TcpFits a (connect_first a.addresses t) f (connect_first-TcpFits a.addresses t h))
  | inr e ↦ rw e h
]

resized-PeerFits : (b : Bool) (p : Peer) → PeerFits p → PeerFits (resized b p)
unfolding resized
resized-PeerFits true p w = w
resized-PeerFits false p w = closed-PeerFits PeerState.idle p w

setvbuf_rx-PeerFits :
    (b : Bool) (r : Option RxStream) (p : Peer) → PeerFits p → Yields PeerFits (setvbuf_rx b r p)
unfolding setvbuf_rx
setvbuf_rx-PeerFits b none p w = tt
setvbuf_rx-PeerFits b (some r) p w = resized-PeerFits b p w

setvbuf_tx-PeerFits :
    (b : Bool) (r : Option (List ℕ)) (p : Peer) → PeerFits p → Yields PeerFits (setvbuf_tx b r p)
unfolding setvbuf_tx
setvbuf_tx-PeerFits b none p w = tt
setvbuf_tx-PeerFits b (some r) p w = resized-PeerFits b p w

resize_buffers-PeerFits :
    (a : Attempt) (p : Peer) → PeerFits p → Yields PeerFits (resize_buffers a p)
unfolding resize_buffers
resize_buffers-PeerFits a p w =
    Yields->>= PeerFits PeerFits (setvbuf_rx a.bgp_rx_resized p.tcp.rx p) _
      (setvbuf_rx-PeerFits a.bgp_rx_resized p.tcp.rx p w)
      λ q v.
        Yields->>= PeerFits PeerFits (setvbuf_tx a.bgp_tx_resized q.tcp.tx q) _
          (setvbuf_tx-PeerFits a.bgp_tx_resized q.tcp.tx q v)
          λ r u. resized-PeerFits a.tcp_tx_resized _ (resized-PeerFits a.tcp_rx_resized r u)

after_connect-PeerFits :
    (a : Attempt) (p : Peer) (x : Bool × Tcp)
    → TcpFits x
    → PeerFits p
    → Yields PeerFits (after_connect a p x)
unfolding after_connect
after_connect-PeerFits a p (false, t) h w =
    closed-PeerFits PeerState.idle (record p { tcp = t })
      (record { id = w.id; queue = w.queue; input = h })
after_connect-PeerFits a p (true, t) h w =
    resize_buffers-PeerFits a _ (record { id = w.id; queue = w.queue; input = h })

pub attempt-PeerFits :
    (a : Attempt) (p : Peer) → AttemptFits a → PeerFits p → Yields PeerFits (attempt a p)
unfolding attempt
attempt-PeerFits a p f w =
    after_connect-PeerFits a (record p { state = PeerState.active }) (connect a p.tcp)
      (connect-TcpFits a p.tcp f w.input) (record { id = w.id; queue = w.queue; input = w.input })

pub send_open-PeerFits : (now : ℕ) (b : Bgp) (p : Peer) → PeerFits p → PeerFits (send_open now b p)
unfolding send_open
send_open-PeerFits now b p w =
    let v = send_packet-PeerFits now (open_message b) MsgType.open_msg p w in
    record { id = v.id; queue = v.queue; input = v.input }
