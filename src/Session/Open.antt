-- ===== src/Session/Open.antt =====
-- src/bgp_open.cpp: the OPEN message.
use log2bgp.Base.{
  ℕ, ◌+◌, ◌*◌, ◌/◌, ◌%◌, ◌^◌, true, false, Option, none, some, List, [], ◌∷◌, ◌==◌, Result, ok,
  ◌>>=◌,
}
use log2bgp.Msg.{MsgType, PeerState, ErrorCode, OpenErrorSubcode}
use log2bgp.Tcp.{disconnect}
use log2bgp.Peer.{Peer}
use log2bgp.Bgp.{Bgp}
use log2bgp.Decode.Buffer.{byte_at}
use log2bgp.Session.Send.{send_packet, open_notification}

-- bgp_open.
pub record OpenHeader : Type 0 where
  pub version : ℕ
  pub asn : ℕ
  pub hold_time : ℕ
  pub bgp_id : ℕ
  pub opt_param_len : ℕ

-- The array open_message; each element keeps the low eight bits of what it is given.
unfoldable pub open_message : Bgp → List ℕ
open_message bgp =
    bgp.version % 256
    ∷ bgp.asn / 2 ^ 8 % 256
    ∷ bgp.asn % 256
    ∷ bgp.hold_time / 2 ^ 8 % 256
    ∷ bgp.hold_time % 256
    ∷ bgp.bgp_id % 256
    ∷ bgp.bgp_id / 2 ^ 8 % 256
    ∷ bgp.bgp_id / 2 ^ 16 % 256
    ∷ bgp.bgp_id / 2 ^ 24 % 256
    ∷ 0
    ∷ []

-- send_open(peer).
unfoldable pub send_open : ℕ → Bgp → Peer → Peer
unfolding open_message
send_open now bgp p = record (send_packet now (open_message bgp) MsgType.open_msg p) {
  state = PeerState.opensent;
}

-- The fields of open_header as decode_open fills them in: the hold time is the sum of its two bytes.
unfoldable pub open_header : List ℕ → Result OpenHeader
open_header packet = do
  version ← byte_at packet 0
  a1 ← byte_at packet 1
  a2 ← byte_at packet 2
  h3 ← byte_at packet 3
  h4 ← byte_at packet 4
  i5 ← byte_at packet 5
  i6 ← byte_at packet 6
  i7 ← byte_at packet 7
  i8 ← byte_at packet 8
  opt ← byte_at packet 9
  ok (record {
    version = version;
    asn = a1 * 2 ^ 8 + a2;
    hold_time = h4 + h3;
    bgp_id = i5 + i6 * 2 ^ 8 + i7 * 2 ^ 16 + i8 * 2 ^ 24;
    opt_param_len = opt;
  })

-- A notification, idle, and the connection closed.
unfoldable pub refuse_open : ℕ → OpenErrorSubcode → Peer → Peer
refuse_open now subcode p =
    let q = open_notification now ErrorCode.open_msg_err subcode p in
    record q { state = PeerState.idle; tcp = disconnect q.tcp }

-- The identifier, the timers and the state once the address is printable.
unfoldable pub confirm_open : ℕ → OpenHeader → List ℕ → Peer → Peer
confirm_open now h b_ip p = send_packet now [] MsgType.keepalive (record p {
  bgp_id = h.bgp_id;
  b_ip = b_ip;
  hold_time = h.hold_time;
  keep_alive = h.hold_time / 3;
  opt_param_len = h.opt_param_len;
  state = PeerState.openconfirm;
})

-- decode_open after open_header is filled in. `inet_ntoa` prints an address, or is null.
unfoldable pub accept_open : ℕ → (ℕ → Option (List ℕ)) → Bgp → OpenHeader → Peer → Peer
unfolding refuse_open confirm_open
accept_open now inet_ntoa bgp h p = elim (h.version == bgp.version) [
  | false ↦ refuse_open now OpenErrorSubcode.unsup_ver_num p
  | true ↦
      let q = record p { version = h.version } in
      elim (h.asn == p.asn) [
        | false ↦ refuse_open now OpenErrorSubcode.bad_peer_as q
        | true ↦ elim (inet_ntoa h.bgp_id) [
          | none ↦ refuse_open now OpenErrorSubcode.bad_bgp_id q
          | some b_ip ↦ confirm_open now h b_ip (record q { asn = h.asn })
        ]
      ]
]

-- decode_open(peer, packet).
unfoldable pub decode_open : ℕ → (ℕ → Option (List ℕ)) → Bgp → List ℕ → Peer → Result Peer
unfolding open_header accept_open
decode_open now inet_ntoa bgp packet p =
    open_header packet >>= λ h. ok (accept_open now inet_ntoa bgp h p)
