-- ===== src/Session/Send.antt =====
-- src/bgp_send.cpp and src/bgp_notification.cpp: the messages that are sent to a neighbor.
pub mod Wire
use log2bgp.Base.{
  ℕ, ◌+◌, ◌/◌, ◌%◌, ◌^◌, Bool, true, false, List, [], ◌∷◌, length, replicate, if◌then◌else◌,
}
use log2bgp.Base.Words.{u32}
use log2bgp.Msg.{
  MsgType, msg_code, PeerState, ErrorCode, ErrorSubcode, OpenErrorSubcode, error_code,
  error_subcode, open_error_subcode,
}
use log2bgp.Tcp.{Tcp, write, write_formated, tx_flush}
use log2bgp.Peer.{Peer, BytesTxRx, ReadWrite, count_tx}

-- header.len, a uint16_t.
unfoldable pub header_len : List ℕ → ℕ
header_len payload = (length payload + 19) % 2 ^ 16

-- The marker, the length, the type and the payload go out in this order.
unfoldable pub transmit : List ℕ → MsgType → Tcp → Tcp
unfolding header_len
transmit payload t tcp =
    let len = header_len payload in
    tx_flush (
      write payload (
        write (msg_code t ∷ [])
          (write_formated (len / 2 ^ 8) (len % 256) (write (replicate 16 0xFF) tcp))))

-- The switch over the type of the message.
unfoldable pub count_sent : ℕ → MsgType → Peer → Peer
count_sent now MsgType.open_msg p = record p { opens = count_tx now p.opens }
count_sent now MsgType.update p = record p { update = count_tx now p.update }
count_sent now MsgType.notification p = record p { notify = count_tx now p.notify }
count_sent now MsgType.keepalive p = record p { keepaliv = count_tx now p.keepaliv }
count_sent now MsgType.routerefresh p = record p { routeref = count_tx now p.routeref }
count_sent now (MsgType.unknown b) p = p

-- send_packet past its two guards.
unfoldable pub send_and_count : ℕ → List ℕ → MsgType → Peer → Peer
unfolding transmit count_sent header_len
send_and_count now payload t p = count_sent now t (record p {
  tcp = transmit payload t p.tcp;
  tx_rx = record p.tx_rx { tx = u32 (p.tx_rx.tx + header_len payload) };
  last_io = record p.last_io { last_write = now };
})

unfoldable pub is_idle : PeerState → Bool
is_idle PeerState.idle = true
is_idle _ = false

unfoldable pub is_update : MsgType → Bool
is_update MsgType.update = true
is_update _ = false

-- send_packet(peer, payload, length payload, type).
unfoldable pub send_packet : ℕ → List ℕ → MsgType → Peer → Peer
unfolding send_and_count is_idle is_update
send_packet now payload t p =
    if is_idle p.state then p else if is_update t then p else send_and_count now payload t p

-- notification(peer, err_code, err_subcode).
unfoldable pub notification : ℕ → ErrorCode → ErrorSubcode → Peer → Peer
notification now err_code err_subcode =
    send_packet now (error_code err_code ∷ error_subcode err_subcode ∷ []) MsgType.notification

-- The overload for the subcodes of an OPEN message.
unfoldable pub open_notification : ℕ → ErrorCode → OpenErrorSubcode → Peer → Peer
open_notification now err_code err_subcode =
    send_packet now (error_code err_code ∷ open_error_subcode err_subcode ∷ []) MsgType.notification
