-- ===== src/Session/Established/Unread.antt =====
-- src/tcp_client.cpp and src/bgp_send.cpp: what is left to read of a connection, before and after a
-- read, and that sending leaves it alone.
use log2bgp.Base.{
  ℕ, suc, ◌≤◌, ◌<◌, ◌≡◌, refl, ap, ◌∙◌, true, false, Option, none, some, List, ◌-◌, length,
  length-drop, ltb, if◌then◌else◌, Bool-cases, Option-cases, inl, inr, arith,
}
use log2bgp.Msg.{MsgType}
use log2bgp.Tcp.{Tcp, RxStream, read, connected, write, write_formated, tx_flush}
use log2bgp.Peer.{Peer}
use log2bgp.Session.Send.{transmit, send_packet, send_and_count, count_sent, is_idle, is_update}

-- What is left to read of an input stream: its bytes and its end.
unfoldable pub left_of : Option RxStream → ℕ
left_of none = 0
left_of (some r) = if r.eof then 0 else suc (length r.pending)

unfoldable pub unread : Tcp → ℕ
unfolding left_of
unread t = left_of t.rx

-- Writing leaves the input alone.
rx-write : (bytes : List ℕ) (t : Tcp) → (write bytes t).rx ≡ t.rx
unfolding write
rx-write bytes t = elim (Bool-cases (connected t)) [ inl e ↦ rw e refl | inr e ↦ rw e refl ]

flushed : (x : Option (List ℕ)) (t : Tcp) → t.tx ≡ x → (tx_flush t).rx ≡ t.rx
unfolding tx_flush
flushed none t e = rw (e, tx_flush) refl
flushed (some b) t e = rw (e, tx_flush) refl

pub rx-transmit : (payload : List ℕ) (mt : MsgType) (t : Tcp) → (transmit payload mt t).rx ≡ t.rx
unfolding transmit write_formated
rx-transmit payload mt t =
    flushed _ (write payload (write _ (write _ (write _ t)))) refl
    ∙ rx-write payload (write _ (write _ (write _ t)))
    ∙ rx-write _ (write _ (write _ t))
    ∙ rx-write _ (write _ t)
    ∙ rx-write _ t

pub rx-count_sent : (now : ℕ) (t : MsgType) (p : Peer) → (count_sent now t p).tcp ≡ p.tcp
unfolding count_sent
rx-count_sent now MsgType.open_msg p = refl
rx-count_sent now MsgType.update p = refl
rx-count_sent now MsgType.notification p = refl
rx-count_sent now MsgType.keepalive p = refl
rx-count_sent now MsgType.routerefresh p = refl
rx-count_sent now (MsgType.unknown b) p = refl

pub unread-send_packet :
    (now : ℕ) (payload : List ℕ) (t : MsgType) (p : Peer)
    → unread (send_packet now payload t p).tcp ≡ unread p.tcp
unfolding send_packet send_and_count unread
unread-send_packet now payload t p = elim (Bool-cases (is_idle p.state)) [
  | inl e ↦ rw e refl
  | inr e ↦ elim (Bool-cases (is_update t)) [
    | inl f ↦ rw (e, f) refl
    | inr f ↦
        rw (e, f) (ap unread (rx-count_sent now t _) ∙ ap left_of (rx-transmit payload t p.tcp))
  ]
]

-- The stream after a read.
left_after : ℕ → Option RxStream → ℕ
left_after count none = 0
left_after count (some r) =
    if ltb (length r.pending) count then 0 else suc (length r.pending - count)

unread-read_stream :
    (count : ℕ) (t : Tcp) (r : Option RxStream)
    → t.rx ≡ r
    → connected t ≡ true
    → unread (read count t).1 ≡ left_after count r
unfolding read unread left_of left_after
unread-read_stream count t none e h = rw (h, e, read) refl
unread-read_stream count t (some r) e h =
    rw (h, e, read) (ground (arith, length-drop count r.pending))

read_not_connected : (count : ℕ) (t : Tcp) → connected t ≡ false → (read count t).1 ≡ t
unfolding read
read_not_connected count t h = rw (h, read) refl

-- A connection has an input that is not at its end.
pub connected-unread :
    (t : Tcp)
    → connected t ≡ true
    → (r : RxStream) × (t.rx ≡ some r) × (unread t ≡ suc (length r.pending))
unfolding connected unread left_of
connected-unread t h = elim (Option-cases t.rx) [
  | inl e ↦ absurd (ground (arith, h, e))
  | inr (r, e) ↦ (r, e, rw e (ground (arith, h, e)))
]

pub unread-read : (count : ℕ) (t : Tcp) → unread (read count t).1 ≤ unread t
unfolding left_after
unread-read count t = elim (Bool-cases (connected t)) [
  | inl h ↦
      let (r, e, l) = connected-unread t h in
      ground (arith, unread-read_stream count t (some r) e h, l)
  | inr h ↦ omega (arith, ap unread (read_not_connected count t h))
]

pub unread-read_lt :
    (count : ℕ) (t : Tcp) → connected t ≡ true → unread (read (suc count) t).1 < unread t
unfolding left_after
unread-read_lt count t h =
    let (r, e, l) = connected-unread t h in
    ground (arith, unread-read_stream (suc count) t (some r) e h, l)
