-- ===== src/World/Receive.antt =====
-- src/bgp.cpp and src/bgp_open.cpp: a turn of the read loop, on an input of bytes.
use log2bgp.Base.{
  ℕ, ◌+◌, ◌*◌, ◌^◌, ◌<◌, Option, none, some, List, [], ◌++◌, length, ltb, leb, ◌==◌, Bool-cases,
  Option-cases, inl, inr, ensure, write_out_of_bounds, read_out_of_bounds, arith,
}
use log2bgp.Msg.{MsgType, msg_type, OpenErrorSubcode, PeerState}
use log2bgp.Tcp.{Tcp, disconnect, read}
use log2bgp.Peer.{Peer, count_rx}
use log2bgp.Bgp.{Bgp}
use log2bgp.Decode.Buffer.{byte_at}
use log2bgp.Session.Send.{open_notification}
use log2bgp.Session.Open.{
  OpenHeader, open_header, refuse_open, confirm_open, accept_open, decode_open,
}
use log2bgp.Session.Receive.{
  Turn, dispatch, body_read, receive_body, receive_header, header_read, receive, read_count,
  read_bytes, payload_count, decode_notification, handle_keepalive, is_openconfirm, enqueue,
  log_subcode, subcode_texts,
}
use log2bgp.World.Yields.{Yields, Yields->>=, Yields-then}
use log2bgp.World.Bytes.{IsByte, Bytes, All-append, byte_at-IsByte}
use log2bgp.World.Peers.{
  PeerFits, PacketFits, input_of, send_packet-PeerFits, ReadFits, read-ReadFits,
}

abbrev HeaderFits : OpenHeader → Type 0
HeaderFits h = h.bgp_id < 2 ^ 32

open_header-HeaderFits : (packet : List ℕ) → Bytes packet → Yields HeaderFits (open_header packet)
unfolding open_header
open_header-HeaderFits packet w =
    let at : (i : ℕ) → Yields IsByte (byte_at packet i) = λ i. byte_at-IsByte packet i w in
    Yields->>= IsByte HeaderFits (byte_at packet 0) _ (at 0) λ version h0.
      Yields->>= IsByte HeaderFits (byte_at packet 1) _ (at 1) λ a1 h1.
        Yields->>= IsByte HeaderFits (byte_at packet 2) _ (at 2) λ a2 h2.
          Yields->>= IsByte HeaderFits (byte_at packet 3) _ (at 3) λ h3 k3.
            Yields->>= IsByte HeaderFits (byte_at packet 4) _ (at 4) λ h4 k4.
              Yields->>= IsByte HeaderFits (byte_at packet 5) _ (at 5) λ i5 k5.
                Yields->>= IsByte HeaderFits (byte_at packet 6) _ (at 6) λ i6 k6.
                  Yields->>= IsByte HeaderFits (byte_at packet 7) _ (at 7) λ i7 k7.
                    Yields->>= IsByte HeaderFits (byte_at packet 8) _ (at 8) λ i8 k8.
                      Yields->>= IsByte HeaderFits (byte_at packet 9) _ (at 9)
                        λ opt k9. omega (arith, k5, k6, k7, k8)

refuse_open-PeerFits :
    (now : ℕ) (subcode : OpenErrorSubcode) (p : Peer)
    → PeerFits p
    → PeerFits (refuse_open now subcode p)
unfolding refuse_open open_notification disconnect input_of
refuse_open-PeerFits now subcode p w =
    let v = send_packet-PeerFits now _ MsgType.notification p w in
    record { id = v.id; queue = v.queue; input = tt }

confirm_open-PeerFits :
    (now : ℕ) (h : OpenHeader) (b_ip : List ℕ) (p : Peer)
    → HeaderFits h
    → PeerFits p
    → PeerFits (confirm_open now h b_ip p)
unfolding confirm_open
confirm_open-PeerFits now h b_ip p k w =
    send_packet-PeerFits now [] MsgType.keepalive _
      (record { id = k; queue = w.queue; input = w.input })

accept_open-PeerFits :
    (now : ℕ) (inet_ntoa : ℕ → Option (List ℕ)) (bgp : Bgp) (h : OpenHeader) (p : Peer)
    → HeaderFits h
    → PeerFits p
    → PeerFits (accept_open now inet_ntoa bgp h p)
unfolding accept_open
accept_open-PeerFits now inet_ntoa bgp h p k w =
    let v : PeerFits (record p { version = h.version }) = record {
      id = w.id;
      queue = w.queue;
      input = w.input;
    } in
    elim (Bool-cases (h.version == bgp.version)) [
      | inr e ↦ rw (e, accept_open) (refuse_open-PeerFits now OpenErrorSubcode.unsup_ver_num p w)
      | inl e ↦ elim (Bool-cases (h.asn == p.asn)) [
        | inr a ↦
            rw (e, a, accept_open)
              (refuse_open-PeerFits now OpenErrorSubcode.bad_peer_as
                (record p { version = h.version }) v)
        | inl a ↦ elim (Option-cases (inet_ntoa h.bgp_id)) [
          | inl n ↦
              rw (e, a, n, accept_open)
                (refuse_open-PeerFits now OpenErrorSubcode.bad_bgp_id
                  (record p { version = h.version }) v)
          | inr (b_ip, n) ↦
              rw (e, a, n, accept_open)
                (confirm_open-PeerFits now h b_ip (record p { version = h.version; asn = h.asn }) k
                  (record { id = w.id; queue = w.queue; input = w.input }))
        ]
      ]
    ]

decode_open-PeerFits :
    (now : ℕ) (inet_ntoa : ℕ → Option (List ℕ)) (bgp : Bgp) (packet : List ℕ) (p : Peer)
    → Bytes packet
    → PeerFits p
    → Yields PeerFits (decode_open now inet_ntoa bgp packet p)
unfolding decode_open
decode_open-PeerFits now inet_ntoa bgp packet p k w =
    Yields->>= HeaderFits PeerFits (open_header packet) _ (open_header-HeaderFits packet k)
      λ h f. accept_open-PeerFits now inet_ntoa bgp h p f w

handle_keepalive-PeerFits : (now : ℕ) (p : Peer) → PeerFits p → PeerFits (handle_keepalive now p)
unfolding handle_keepalive
handle_keepalive-PeerFits now p w = elim (Bool-cases (is_openconfirm p.state)) [
  | inl c ↦
      rw (c, handle_keepalive)
        (send_packet-PeerFits now [] MsgType.keepalive
          (record p { state = PeerState.established; up_since = now })
          (record { id = w.id; queue = w.queue; input = w.input }))
  | inr c ↦ rw (c, handle_keepalive) (send_packet-PeerFits now [] MsgType.keepalive p w)
]

enqueue-PeerFits :
    (body : List ℕ) (p : Peer) → Bytes body → PeerFits p → Yields PeerFits (enqueue body p)
unfolding enqueue
enqueue-PeerFits body p k w =
    Yields-then PeerFits (ensure (leb (length body) 4096) write_out_of_bounds) _ λ e. record {
      id = w.id;
      queue = All-append PacketFits p.in_queue _ w.queue (k, tt);
      input = w.input;
    }

log_subcode-PeerFits :
    (texts : Option ℕ) (subcode : ℕ) (p : Peer)
    → PeerFits p
    → Yields PeerFits (log_subcode texts subcode p)
unfolding log_subcode
log_subcode-PeerFits none subcode p w = w
log_subcode-PeerFits (some n) subcode p w =
    Yields-then PeerFits (ensure (ltb subcode n) read_out_of_bounds) _ λ e. w

decode_notification-PeerFits :
    (packet : List ℕ) (p : Peer)
    → Bytes packet
    → PeerFits p
    → Yields PeerFits (decode_notification packet p)
unfolding decode_notification
decode_notification-PeerFits packet p k w =
    Yields->>= IsByte PeerFits (byte_at packet 0) _ (byte_at-IsByte packet 0 k) λ code h.
      Yields->>= IsByte PeerFits (byte_at packet 1) _ (byte_at-IsByte packet 1 k)
        λ subcode g. log_subcode-PeerFits (subcode_texts code) subcode p w

-- The buffer of a turn consists of bytes.
abbrev pub TurnFits : Turn → Type 0
TurnFits t = Bytes t.stale

dispatch-PeerFits :
    (t : Turn) (bgp : Bgp) (mt : MsgType) (body : List ℕ) (p : Peer)
    → TurnFits t
    → Bytes body
    → PeerFits p
    → Yields PeerFits (dispatch t bgp mt body p)
unfolding dispatch
dispatch-PeerFits t bgp MsgType.open_msg body p s k w =
    decode_open-PeerFits t.now t.inet_ntoa bgp (body ++ t.stale)
      (record p { opens = count_rx t.now p.opens }) (All-append IsByte body t.stale k s)
      (record { id = w.id; queue = w.queue; input = w.input })
dispatch-PeerFits t bgp MsgType.keepalive body p s k w =
    handle_keepalive-PeerFits t.now (record p { keepaliv = count_rx t.now p.keepaliv })
      (record { id = w.id; queue = w.queue; input = w.input })
dispatch-PeerFits t bgp MsgType.notification body p s k w =
    decode_notification-PeerFits (body ++ t.stale) (record p { notify = count_rx t.now p.notify })
      (All-append IsByte body t.stale k s) (record { id = w.id; queue = w.queue; input = w.input })
dispatch-PeerFits t bgp MsgType.update body p s k w =
    enqueue-PeerFits body (record p { update = count_rx t.now p.update }) k
      (record { id = w.id; queue = w.queue; input = w.input })
dispatch-PeerFits t bgp MsgType.routerefresh body p s k w = record {
  id = w.id;
  queue = w.queue;
  input = w.input;
}
dispatch-PeerFits t bgp (MsgType.unknown b) body p s k w = w

body_read-PeerFits :
    (t : Turn) (bgp : Bgp) (len : ℕ) (mt : MsgType) (p : Peer) (got : Option (List ℕ) × Tcp)
    → TurnFits t
    → ReadFits got
    → PeerFits p
    → Yields PeerFits (body_read t bgp len mt p got)
unfolding body_read
body_read-PeerFits t bgp len mt p (got, tcp) s k w =
    let v : PeerFits (record p { tcp = tcp }) = record {
      id = w.id;
      queue = w.queue;
      input = k.0;
    } in
    Yields-then PeerFits (ensure (leb (length (read_bytes got)) len) write_out_of_bounds) _ λ e.
      elim (Bool-cases (read_count got == payload_count len)) [
        | inr h ↦ rw h v
        | inl h ↦
            rw h (dispatch-PeerFits t bgp mt (read_bytes got) (record p { tcp = tcp }) s k.1 v)
      ]

receive_body-PeerFits :
    (t : Turn) (bgp : Bgp) (len : ℕ) (mt : MsgType) (p : Peer)
    → TurnFits t
    → PeerFits p
    → Yields PeerFits (receive_body t bgp len mt p)
unfolding receive_body
receive_body-PeerFits t bgp len mt p s w =
    body_read-PeerFits t bgp len mt p (read (payload_count len) p.tcp) s
      (read-ReadFits (payload_count len) p.tcp w.input) w

header_read-PeerFits :
    (t : Turn) (bgp : Bgp) (p : Peer) (got : Option (List ℕ) × Tcp)
    → TurnFits t
    → ReadFits got
    → PeerFits p
    → Yields PeerFits (header_read t bgp p got)
unfolding header_read receive_header
header_read-PeerFits t bgp p (got, tcp) s k w = elim (Bool-cases (read_count got == 19)) [
  | inr e ↦ rw (header_read, e) (record { id = w.id; queue = w.queue; input = k.0 })
  | inl e ↦
      rw (header_read, e)
        (Yields->>= IsByte PeerFits (byte_at (read_bytes got) 16) _ (byte_at-IsByte _ 16 k.1) λ a h.
          Yields->>= IsByte PeerFits (byte_at (read_bytes got) 17) _ (byte_at-IsByte _ 17 k.1)
            λ b g.
              Yields->>= IsByte PeerFits (byte_at (read_bytes got) 18) _ (byte_at-IsByte _ 18 k.1)
                λ c f.
                  receive_body-PeerFits t bgp (a * 2 ^ 8 + b) (msg_type c) _ s
                    (record { id = w.id; queue = w.queue; input = k.0 }))
]

-- A turn of the loop keeps the id in 32 bits, and queues nothing but bytes.
pub receive-PeerFits :
    (t : Turn) (bgp : Bgp) (p : Peer) → TurnFits t → PeerFits p → Yields PeerFits (receive t bgp p)
unfolding receive
receive-PeerFits t bgp p s w =
    header_read-PeerFits t bgp p (read 19 p.tcp) s (read-ReadFits 19 p.tcp w.input) w
