-- ===== src/Session/Receive.antt =====
-- src/bgp.cpp: one turn of the loop of peer_established, a message read and handled.
pub mod Framing
use log2bgp.Base.{
  ℕ, zero, suc, ◌+◌, ◌-◌, ◌*◌, ◌^◌, Bool, true, false, Option, none, some, List, [], ◌∷◌, ◌++◌,
  length, ltb, leb, ◌==◌, if◌then◌else◌, Result, ok, fault, ensure, read_out_of_bounds,
  write_out_of_bounds, ◌>>=◌, ◌>>◌,
}
use log2bgp.Base.Words.{inc16}
use log2bgp.Msg.{MsgType, msg_type, PeerState}
use log2bgp.Tcp.{Tcp, read}
use log2bgp.Peer.{Peer, QueueData, ReadWrite, count_rx}
use log2bgp.Bgp.{Bgp}
use log2bgp.Decode.Buffer.{byte_at}
use log2bgp.Session.Send.{send_packet}
use log2bgp.Session.Open.{decode_open}

-- What a turn is given: the time, the bytes that are in a new buffer before it is filled, and
-- inet_ntoa.
pub record Turn : Type 0 where
  pub now : ℕ
  pub stale : List ℕ
  pub inet_ntoa : ℕ → Option (List ℕ)

-- The result of read(), a size_t: -1 when there is no connection.
unfoldable pub read_count : Option (List ℕ) → ℕ
read_count none = 2 ^ 64 - 1
read_count (some bytes) = length bytes

unfoldable pub read_bytes : Option (List ℕ) → List ℕ
read_bytes none = []
read_bytes (some bytes) = bytes

-- len - 19 as a size_t.
unfoldable pub payload_count : ℕ → ℕ
payload_count len = if ltb len 19 then 2 ^ 64 + len - 19 else len - 19

-- The number of subcode texts of an error, for the errors that have some.
unfoldable pub subcode_texts : ℕ → Option ℕ
subcode_texts code =
    if code == 1 then some 4 else if code == 2 then some 8 else if code == 3 then some 12 else none

-- The log reads the text table at the subcode.
unfoldable pub log_subcode : Option ℕ → ℕ → Peer → Result Peer
log_subcode none subcode p = ok p
log_subcode (some n) subcode p = ensure (ltb subcode n) read_out_of_bounds >> ok p

-- decode_notification(peer, packet): nothing changes but the log.
unfoldable pub decode_notification : List ℕ → Peer → Result Peer
unfolding log_subcode subcode_texts
decode_notification packet p = do
  code ← byte_at packet 0
  subcode ← byte_at packet 1
  log_subcode (subcode_texts code) subcode p

unfoldable pub is_openconfirm : PeerState → Bool
is_openconfirm PeerState.openconfirm = true
is_openconfirm _ = false

-- A KEEPALIVE establishes the session of a peer in openconfirm, and is answered.
unfoldable pub handle_keepalive : ℕ → Peer → Peer
unfolding is_openconfirm
handle_keepalive now p = send_packet now [] MsgType.keepalive (
    if is_openconfirm p.state
    then record p { state = PeerState.established; up_since = now }
    else p)

-- An UPDATE goes to the end of the queue, in an array of 4096 bytes.
unfoldable pub enqueue : List ℕ → Peer → Result Peer
enqueue body p = do
  ensure (leb (length body) 4096) write_out_of_bounds
  ok (record p {
    in_queue = p.in_queue ++ (record { length = length body; packet = body } ∷ []);
    in_q = inc16 p.in_q;
  })

-- The switch over header->type; `body` is the message without its header.
unfoldable pub dispatch : Turn → Bgp → MsgType → List ℕ → Peer → Result Peer
unfolding decode_notification handle_keepalive enqueue
dispatch t bgp MsgType.open_msg body p =
    decode_open t.now t.inet_ntoa bgp (body ++ t.stale)
      (record p { opens = count_rx t.now p.opens })
dispatch t bgp MsgType.keepalive body p =
    ok (handle_keepalive t.now (record p { keepaliv = count_rx t.now p.keepaliv }))
dispatch t bgp MsgType.notification body p =
    decode_notification (body ++ t.stale) (record p { notify = count_rx t.now p.notify })
dispatch t bgp MsgType.update body p = enqueue body (record p { update = count_rx t.now p.update })
dispatch t bgp MsgType.routerefresh body p = ok (record p { routeref = count_rx t.now p.routeref })
dispatch t bgp (MsgType.unknown b) body p = ok p

-- The message after its header of `len` and `type`, as it was read: what is read beyond the buffer
-- of `len` bytes is a fault, and a message that is cut off is dropped.
unfoldable pub body_read : Turn → Bgp → ℕ → MsgType → Peer → Option (List ℕ) × Tcp → Result Peer
unfolding read_count read_bytes payload_count dispatch
body_read t bgp len type p (got, tcp) =
    ensure (leb (length (read_bytes got)) len) write_out_of_bounds
    >> elim (read_count got == payload_count len) [
      | false ↦ ok (record p { tcp = tcp })
      | true ↦ dispatch t bgp type (read_bytes got) (record p { tcp = tcp })
    ]

unfoldable pub receive_body : Turn → Bgp → ℕ → MsgType → Peer → Result Peer
unfolding body_read
receive_body t bgp len type p = body_read t bgp len type p (read (payload_count len) p.tcp)

-- The bytes 16, 17 and 18 of the header.
unfoldable pub receive_header : Turn → Bgp → List ℕ → Peer → Result Peer
unfolding receive_body
receive_header t bgp head p = do
  a ← byte_at head 16
  b ← byte_at head 17
  c ← byte_at head 18
  receive_body t bgp (a * 2 ^ 8 + b) (msg_type c) p

-- The header as it was read; one that is cut off is dropped.
unfoldable pub header_read : Turn → Bgp → Peer → Option (List ℕ) × Tcp → Result Peer
unfolding receive_header
header_read t bgp p (got, tcp) = elim (read_count got == 19) [
  | false ↦ ok (record p { tcp = tcp })
  | true ↦
      receive_header t bgp (read_bytes got)
        (record p { tcp = tcp; last_io = record p.last_io { last_read = t.now } })
]

-- The body of the loop.
unfoldable pub receive : Turn → Bgp → Peer → Result Peer
unfolding header_read
receive t bgp p = header_read t bgp p (read 19 p.tcp)
