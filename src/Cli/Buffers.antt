-- ===== src/Cli/Buffers.antt =====
-- cli/bgp_cli.cpp: the commands that set the buffer sizes of a peer. Whether the sizes of an open
-- connection can be set, which the system says, is given. atoi reads a number within an int as
-- string_to_uint32_t does.
use log2bgp.Base.{ℕ, Bool, Option, none, some, List, [], ◌++◌, if◌then◌else◌, Result, ok, ◌>>=◌}
use log2bgp.Base.Text.{codes}
use log2bgp.Msg.{PeerState}
use log2bgp.Tcp.{connected}
use log2bgp.Peer.{Peer}
use log2bgp.Bgp.{Bgp}
use log2bgp.Threads.{get_peer_by_str_ip, write_peer}
use log2bgp.Cli.Numbers.{string_to_uint32_t}
use log2bgp.Cli.Settings.{token, no_peer}

-- peer_state.
unfoldable pub peer_state_text : PeerState → List ℕ
peer_state_text PeerState.idle = codes "Idle"
peer_state_text PeerState.connect = codes "Connect"
peer_state_text PeerState.active = codes "Active"
peer_state_text PeerState.opensent = codes "Open Sent"
peer_state_text PeerState.openconfirm = codes "Open Confirm"
peer_state_text PeerState.established = codes "Established"
peer_state_text PeerState.deleted = codes "Deleted"
peer_state_text PeerState.clearing = codes "Clearing"

-- What is said to a peer that is connected, and to one that is not.
unfoldable pub resize_text : List ℕ → List ℕ → Bool → List ℕ → List ℕ → Peer → List ℕ
unfolding peer_state_text connected
resize_text error later resizes tcp bgp p =
    if connected p.tcp
    then (if resizes then [] else error ++ (tcp ++ (codes " and bgp=" ++ (bgp ++ codes "\n"))))
    else codes "% Peer " ++ (p.p_ip ++ (codes " state is " ++ (peer_state_text p.state ++ later)))

-- The sizes of the receive side, and of the send side.
unfoldable pub set_rx : ℕ → ℕ → Peer → Peer
set_rx tcp bgp p = record p { buffers = record p.buffers { tcp_rx = tcp; bgp_rx = bgp } }

unfoldable pub set_tx : ℕ → ℕ → Peer → Peer
set_tx tcp bgp p = record p { buffers = record p.buffers { tcp_tx = tcp; bgp_tx = bgp } }

-- The command for one of the sides, given its texts.
unfoldable pub resize_at :
    (ℕ → ℕ → Peer → Peer)
    → List ℕ
    → List ℕ
    → Bool
    → List (List ℕ)
    → List ℕ
    → Option Peer
    → Bgp
    → Result (List ℕ × Bgp)
unfolding resize_text no_peer write_peer token
resize_at set error later resizes tokens ip none b = ok (no_peer ip, b)
resize_at set error later resizes tokens ip (some p) b = do
  tcp ← token tokens 3
  bgp ← token tokens 4
  ok (
    resize_text error later resizes tcp bgp p,
    record b {
      thread_q = write_peer ip (set (string_to_uint32_t tcp) (string_to_uint32_t bgp) p) b.thread_q;
    },
  )

unfoldable pub proto_bgp_peer_rcv_buffer_size : Bool → List (List ℕ) → Bgp → Result (List ℕ × Bgp)
unfolding resize_at set_rx get_peer_by_str_ip token
proto_bgp_peer_rcv_buffer_size resizes tokens b = token tokens 1 >>= λ ip.
    resize_at set_rx (codes "% Error setting receive buffer size to tcp=")
      (codes ": will resize rx-buffers on Established\n") resizes tokens ip
      (get_peer_by_str_ip ip b.thread_q) b

unfoldable pub proto_bgp_peer_snd_buffer_size : Bool → List (List ℕ) → Bgp → Result (List ℕ × Bgp)
unfolding resize_at set_tx get_peer_by_str_ip token
proto_bgp_peer_snd_buffer_size resizes tokens b = token tokens 1 >>= λ ip.
    resize_at set_tx (codes "% Error setting send buffer size to tcp=")
      (codes ": will resize tx-buffers on Established\n") resizes tokens ip
      (get_peer_by_str_ip ip b.thread_q) b
