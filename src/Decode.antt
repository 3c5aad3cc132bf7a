-- ===== src/Decode.antt =====
-- src/bgp_update.cpp: decoding the queued UPDATE messages.
pub mod Buffer
pub mod Nlri
pub mod Attrib
pub mod Withdraw
pub mod Announce
use log2bgp.Base.{
  ℕ, suc, ◌+◌, ◌*◌, ◌%◌, ◌^◌, Bool, true, false, List, [], ◌∷◌, ◌++◌, length, take, replicate, ◌==◌,
  if◌then◌else◌, Result, ok, fault, ◌>>=◌,
}
use log2bgp.Base.Words.{dec16}
use log2bgp.Msg.{Update, empty_update}
use log2bgp.Peer.{Peer, QueueData}
use log2bgp.Bgp.{Bgp, NlriParse}
use Buffer.{byte_at, be16}
use Nlri.{parse_nlri}
use Attrib.{Cursor, parse_attribs}

-- The buffer of a packet: its bytes, and five zero bytes of padding.
unfoldable pub padded : QueueData → List ℕ
padded q = take q.length q.packet ++ replicate 5 0

-- The attributes and the announced prefixes of a packet with no withdrawn routes.
unfoldable pub process_announce : ℕ → ℕ → List ℕ → Bgp → Result Bgp
process_announce now bgp_id packet b = do
  path_attrib_len ← be16 packet 2
  cursor ←
      parse_attribs (length packet) packet path_attrib_len
        (record { i = 3; read_len = 0; update = empty_update })
  parse_nlri (length packet + 1) NlriParse.update now bgp_id packet (path_attrib_len + 4)
      (record cursor.update { addr_family = 2 }) b

-- The body of the loop of proc_in_q for one packet. A packet that withdraws routes is read no
-- further.
unfoldable pub process_packet : ℕ → ℕ → List ℕ → Bgp → Result Bgp
unfolding process_announce
process_packet now bgp_id packet b = do
  unfeasable_routes_len ← be16 packet 0
  if unfeasable_routes_len == 0
      then process_announce now bgp_id packet b
      else parse_nlri (length packet + 1) NlriParse.withdraw now bgp_id packet 2 empty_update b

-- The loop of proc_in_q: each packet leaves the queue of the peer before it is read.
unfoldable pub process_queue : ℕ → List QueueData → Peer → Bgp → Result (Peer × Bgp)
unfolding process_packet padded
process_queue now [] p b = ok (p, b)
process_queue now (q ∷ qs) p b = process_packet now p.bgp_id (padded q) b >>= λ b'.
    process_queue now qs (record p { in_queue = qs; in_q = dec16 p.in_q }) b'
