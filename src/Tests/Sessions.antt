-- ===== src/Tests/Sessions.antt =====
-- Runs of the session of src/bgp.cpp, bgp_send.cpp and bgp_open.cpp.
use log2bgp.Base.{
  ℕ, ◌+◌, ◌/◌, ◌%◌, ◌^◌, ◌≡◌, refl, true, false, Option, some, List, [], ◌∷◌, ◌++◌, Result, ok,
  fault, no_fuel, ◌≢◌, arith,
}
use log2bgp.Msg.{MsgType, PeerState}
use log2bgp.Tcp.{connected}
use log2bgp.Peer.{Peer}
use log2bgp.Bgp.{Bgp}
use log2bgp.Session.Send.{send_packet}
use log2bgp.Session.Send.Wire.{message, up}
use log2bgp.Session.Open.{open_message, decode_open, send_open}
use log2bgp.Session.Timer.{hold_timer_expired}
use log2bgp.Session.Receive.{Turn, dispatch, receive}
use log2bgp.Session.Receive.Framing.{receive-send_packet}
use log2bgp.Session.Established.{receive_loop, pending_bytes, peer_established}
use log2bgp.Session.Established.Ends.{peer_established_ends}
use log2bgp.Session.Established.States.{session, SessionStep, receive_step}
use log2bgp.Session.Established.Agreement.{Agreed, session_agreement}
use log2bgp.Session.Handshake.{decode_open-open_message}
use log2bgp.Session.Expiry.{hold_timer_expires}
use log2bgp.Tests.Data.{daemon, neighbor}

-- A turn at second 100; an address is printed as itself.
abbrev turn : Turn
turn = record { now = 100; stale = []; inet_ntoa = λ a. some (a ∷ []) }

-- A neighbor in openconfirm on a fresh connection.
abbrev waiting : Peer
waiting = record neighbor { state = PeerState.openconfirm; tcp = up 4 [] [] [] }

-- The same, with a KEEPALIVE to read.
abbrev kept_alive : Peer
kept_alive = record waiting {
  tcp = up 4 ((send_packet 90 [] MsgType.keepalive waiting).tcp.wire ++ []) [] [];
}

receive-send_packet_example :
    receive turn daemon kept_alive
    ≡ dispatch turn daemon MsgType.keepalive [] (record kept_alive {
      tcp = up 4 [] [] [];
      last_io = record kept_alive.last_io { last_read = 100 };
    })
unfolding log2bgp.Session.Send.is_idle log2bgp.Session.Send.is_update log2bgp.Msg.msg_type
    log2bgp.Msg.msg_code
receive-send_packet_example =
    receive-send_packet turn daemon 90 MsgType.keepalive [] [] [] [] [] 4 4 waiting kept_alive refl
      refl refl (omega arith) refl refl

abbrev value_of : Result Peer → Peer
value_of (ok p) = p
value_of (fault e) = neighbor

abbrev established : Peer
established = value_of (receive turn daemon kept_alive)

established-ok : receive turn daemon kept_alive ≡ ok established
unfolding receive log2bgp.Tcp.read send_packet log2bgp.Tcp.tx_flush log2bgp.Tcp.write
    log2bgp.Tcp.write_formated log2bgp.Decode.Buffer.byte_at log2bgp.Base.get_elem?
    log2bgp.Msg.msg_type log2bgp.Msg.msg_code
established-ok = refl

receive_step_example : SessionStep daemon kept_alive established
receive_step_example = receive_step turn daemon kept_alive established established-ok

-- A daemon of the neighbor's AS, with a hold time of 90 seconds.
abbrev other_daemon : Bgp
other_daemon = record daemon { asn = 65001; hold_time = 90; bgp_id = 7 }

decode_open-open_message_example :
    (q : Peer) × (decode_open 100 turn.inet_ntoa daemon
        (open_message other_daemon ++ (0 ∷ []))
        waiting
      ≡ ok q)
    × (session q ≡ record {
      state = PeerState.openconfirm;
      asn = 65001;
      version = 4;
      hold_time = 90;
      keep_alive = 90 / 3;
    })
decode_open-open_message_example =
    decode_open-open_message 100 turn.inet_ntoa daemon other_daemon (0 ∷ []) (7 ∷ []) waiting
      (record {
        version_fits = omega arith;
        asn_fits = omega arith;
        hold_time_fits = omega arith;
        bgp_id_fits = omega arith;
      })
      refl refl refl

-- A neighbor that closes the connection in the middle of a header.
abbrev answering : Peer
answering = record neighbor {
  state = PeerState.connect;
  tcp = up 4 (0xFF ∷ 0xFF ∷ 0xFF ∷ []) [] [];
}

abbrev answered : Peer
answered = value_of (receive_loop 2 (λ k. turn) daemon (send_open 90 daemon answering))

answered-ok : receive_loop 2 (λ k. turn) daemon (send_open 90 daemon answering) ≡ ok answered
unfolding receive_loop send_open send_packet log2bgp.Tcp.tx_flush log2bgp.Tcp.write
    log2bgp.Tcp.write_formated log2bgp.Tcp.read message log2bgp.Decode.Buffer.byte_at
    log2bgp.Base.get_elem? log2bgp.Base.drop log2bgp.Msg.msg_type log2bgp.Msg.msg_code decode_open
    open_message
answered-ok = refl

session_agreement_example : Agreed daemon 65001 (session answered)
session_agreement_example = session_agreement 2 90 (λ k. turn) daemon answering answered answered-ok

abbrev quiet : Peer
quiet = record neighbor { state = PeerState.established; tcp = up 4 [] [] [] }

hold_timer_expires_example :
    ((hold_timer_expired 180 quiet).0 ≡ true)
    × ((hold_timer_expired 180 quiet).1.state ≡ PeerState.idle)
    × (connected ((hold_timer_expired 180 quiet).1.tcp) ≡ false)
    × ((hold_timer_expired 180 quiet).1.tcp.wire ≡ [] ++ message (4 ∷ 0 ∷ []) MsgType.notification)
unfolding log2bgp.Session.Timer.is_established
hold_timer_expires_example = hold_timer_expires 180 4 [] [] quiet refl (omega arith) refl

peer_established_ends_example : peer_established 5 (λ k. turn) answering daemon ≢ fault no_fuel
unfolding pending_bytes
peer_established_ends_example = peer_established_ends 5 (λ k. turn) answering daemon (omega arith)
