-- ===== src/Session/Timer.antt =====
-- src/bgp.cpp: the hold timer, and src/bgp_update.cpp: the start of proc_in_q.
use log2bgp.Base.{ℕ, ◌+◌, Bool, true, false, [], leb, if◌then◌else◌, Result, ok}
use log2bgp.Msg.{MsgType, PeerState, ErrorCode, ErrorSubcode}
use log2bgp.Tcp.{disconnect}
use log2bgp.Peer.{Peer}
use log2bgp.Bgp.{Bgp}
use log2bgp.Decode.{process_queue}
use log2bgp.Session.Send.{send_packet, notification}

-- Past the hold time: a notification, idle, and the connection closed.
unfoldable pub expire : ℕ → Peer → Peer
expire now p =
    let q = notification now ErrorCode.hold_time_expired ErrorSubcode.no_subcode p in
    record q { state = PeerState.idle; tcp = disconnect q.tcp }

-- The hold and keepalive tests of an established peer. `now` is a signed time_t, so the difference
-- from the last read or write is compared as a sum.
unfoldable pub check_timers : ℕ → Peer → Bool × Peer
unfolding expire
check_timers now p =
    if leb (p.last_io.last_read + p.hold_time) now
    then (true, expire now p)
    else if leb (p.keepaliv.last_tx + p.keep_alive) now
    then (false, send_packet now [] MsgType.keepalive p)
    else (false, p)

unfoldable pub is_established : PeerState → Bool
is_established PeerState.established = true
is_established _ = false

-- hold_timer_expired(peer).
unfoldable pub hold_timer_expired : ℕ → Peer → Bool × Peer
unfolding check_timers is_established
hold_timer_expired now p = if is_established p.state then check_timers now p else (true, p)

-- proc_in_q(peer).
unfoldable pub proc_in_q : ℕ → Peer → Bgp → Result (Peer × Bgp)
unfolding hold_timer_expired
proc_in_q now p b =
    let (expired, q) = hold_timer_expired now p in
    if expired then ok (q, b) else process_queue now q.in_queue q b
