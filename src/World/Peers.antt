-- ===== src/World/Peers.antt =====
-- src/bgp.cpp and src/bgp_open.cpp: what a peer has read, over all that its thread does.
use log2bgp.Base.{
  ℕ, ◌^◌, ◌<◌, ◌≡◌, refl, sym, ap, subst, ◌∙◌, Option, none, some, List, [], All, Bool-cases,
  Option-cases, inl, inr,
}
use log2bgp.Msg.{MsgType}
use log2bgp.Tcp.{Tcp, RxStream, connected, read}
use log2bgp.Peer.{Peer, QueueData}
use log2bgp.Session.Send.{send_packet, send_and_count, is_idle, is_update}
use log2bgp.Session.Receive.{read_bytes}
use log2bgp.Session.Established.Unread.{rx-transmit, rx-count_sent}
use log2bgp.Main.Quiet.{Kept-send_packet}
use log2bgp.World.Bytes.{Bytes, take-Bytes, drop-Bytes}

-- The bytes that a stream can still give.
unfoldable pub input_of : Option RxStream → List ℕ
input_of none = []
input_of (some r) = r.pending

abbrev pub PacketFits : QueueData → Type 0
PacketFits d = Bytes d.packet

-- The id is a uint32_t, and what is queued or still to be read consists of bytes.
pub record PeerFits (p : Peer) : Type 0 where
  pub id : p.bgp_id < 2 ^ 32
  pub queue : All PacketFits p.in_queue
  pub input : Bytes (input_of p.tcp.rx)

rx-send_packet :
    (now : ℕ) (payload : List ℕ) (t : MsgType) (p : Peer)
    → (send_packet now payload t p).tcp.rx ≡ p.tcp.rx
unfolding send_packet send_and_count
rx-send_packet now payload t p = elim (Bool-cases (is_idle p.state)) [
  | inl e ↦ rw e refl
  | inr e ↦ elim (Bool-cases (is_update t)) [
    | inl f ↦ rw (e, f) refl
    | inr f ↦ rw (e, f) (ap (λ c. c.rx) (rx-count_sent now t _) ∙ rx-transmit payload t p.tcp)
  ]
]

-- Sending keeps the id, the queue and the input.
pub send_packet-PeerFits :
    (now : ℕ) (payload : List ℕ) (t : MsgType) (p : Peer)
    → PeerFits p
    → PeerFits (send_packet now payload t p)
send_packet-PeerFits now payload t p w =
    let k = Kept-send_packet now payload t p in
    record {
      id = subst (λ i. i < 2 ^ 32) (sym (k.bgp_id)) w.id;
      queue = subst (All PacketFits) (sym (k.in_queue)) w.queue;
      input = subst (λ r. Bytes (input_of r)) (sym (rx-send_packet now payload t p)) w.input;
    }

-- What a read gives, and what it leaves.
abbrev pub ReadFits : Option (List ℕ) × Tcp → Type 0
ReadFits (got, t) = Bytes (input_of t.rx) × Bytes (read_bytes got)

pub read-ReadFits : (n : ℕ) (t : Tcp) → Bytes (input_of t.rx) → ReadFits (read n t)
unfolding read input_of read_bytes
read-ReadFits n t h = elim (Bool-cases (connected t)) [
  | inr e ↦ rw (e, read) (h, tt)
  | inl e ↦ elim (Option-cases t.rx) [
    | inl r ↦ rw (e, r, read) (rw r at h, tt)
    | inr (r, f) ↦
        let bytes : Bytes r.pending = rw f at h in
        rw (e, f, read) (drop-Bytes n r.pending bytes, take-Bytes n r.pending bytes)
  ]
]
