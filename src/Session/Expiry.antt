-- ===== src/Session/Expiry.antt =====
-- src/bgp.cpp: when the hold timer expires, and what it does.
use log2bgp.Base.{
  ℕ, ◌+◌, ◌≤◌, ◌<◌, ◌≡◌, refl, sym, ap, ◌∙◌, true, false, List, [], ◌∷◌, ◌++◌, leb, arith,
  Bool-cases, inl, inr,
}
use log2bgp.Msg.{MsgType, PeerState, ErrorCode, ErrorSubcode, error_code, error_subcode}
use log2bgp.Tcp.{connected, disconnect}
use log2bgp.Peer.{Peer}
use log2bgp.Session.Send.{notification, is_idle, is_update, transmit}
use log2bgp.Session.Receive.Framing.{send_packet-tcp, le→leb}
use log2bgp.Session.Send.Wire.{message, up, transmit-up}
use log2bgp.Session.Timer.{is_established, hold_timer_expired, check_timers, expire}
use log2bgp.Session.Established.States.{session, session-send_packet}

check_timers-alive :
    (now : ℕ) (p : Peer)
    → now < p.last_io.last_read + p.hold_time
    → ((check_timers now p).0 ≡ false) × (session ((check_timers now p).1) ≡ session p)
unfolding check_timers
check_timers-alive now p h = elim (Bool-cases (leb (p.keepaliv.last_tx + p.keep_alive) now)) [
  | inl k ↦ ground (arith, session-send_packet now [] MsgType.keepalive p)
  | inr k ↦ ground arith
]

-- An established session that has read something within its hold time goes on: the test is false,
-- and state, AS, version and timers are kept, whether or not a keepalive is due.
pub hold_timer_alive :
    (now : ℕ) (p : Peer)
    → is_established p.state ≡ true
    → now < p.last_io.last_read + p.hold_time
    → ((hold_timer_expired now p).0 ≡ false) × (session ((hold_timer_expired now p).1) ≡ session p)
unfolding hold_timer_expired
hold_timer_alive now p s h = rw (s, hold_timer_expired) (check_timers-alive now p h)

established-busy : (s : PeerState) → is_established s ≡ true → is_idle s ≡ false
unfolding is_established is_idle
established-busy PeerState.idle h = sym h
established-busy PeerState.connect h = refl
established-busy PeerState.active h = refl
established-busy PeerState.opensent h = refl
established-busy PeerState.openconfirm h = refl
established-busy PeerState.established h = refl
established-busy PeerState.deleted h = refl
established-busy PeerState.clearing h = refl

notification-up :
    (now fd : ℕ) (pending wire : List ℕ) (p : Peer)
    → is_idle p.state ≡ false
    → p.tcp ≡ up fd pending [] wire
    → (notification now ErrorCode.hold_time_expired ErrorSubcode.no_subcode p).tcp
      ≡ up fd pending [] (wire ++ message (4 ∷ 0 ∷ []) MsgType.notification)
unfolding notification is_update error_code error_subcode
notification-up now fd pending wire p i e =
    send_packet-tcp now (4 ∷ 0 ∷ []) MsgType.notification p i refl
    ∙ ap (transmit (4 ∷ 0 ∷ []) MsgType.notification) e
    ∙ transmit-up (4 ∷ 0 ∷ []) MsgType.notification fd pending wire

expire-up :
    (now fd : ℕ) (pending wire : List ℕ) (p : Peer)
    → is_idle p.state ≡ false
    → p.tcp ≡ up fd pending [] wire
    → ((expire now p).state ≡ PeerState.idle)
      × (connected ((expire now p).tcp) ≡ false)
      × (((expire now p).tcp.wire) ≡ wire ++ message (4 ∷ 0 ∷ []) MsgType.notification)
unfolding expire disconnect connected
expire-up now fd pending wire p i e =
    (refl, refl, ap (λ t. t.wire) (notification-up now fd pending wire p i e))

-- An established session on a connection that is up, with nothing read for its hold time: the test
-- is true, the session is idle, the connection is closed, and the last message on the wire is the
-- notification with the code 4, hold timer expired.
pub hold_timer_expires :
    (now fd : ℕ) (pending wire : List ℕ) (p : Peer)
    → is_established p.state ≡ true
    → p.last_io.last_read + p.hold_time ≤ now
    → p.tcp ≡ up fd pending [] wire
    → let r = hold_timer_expired now p in
      (r.0 ≡ true)
      × (r.1.state ≡ PeerState.idle)
      × (connected (r.1.tcp) ≡ false)
      × (r.1.tcp.wire ≡ wire ++ message (4 ∷ 0 ∷ []) MsgType.notification)
unfolding hold_timer_expired check_timers
hold_timer_expires now fd pending wire p s h e =
    let (idle, closed, sent) = expire-up now fd pending wire p (established-busy p.state s) e in
    rw (s, le→leb (p.last_io.last_read + p.hold_time) now h, hold_timer_expired, check_timers)
      (refl, idle, closed, sent)
