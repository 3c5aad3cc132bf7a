-- ===== src/Session/Established/States.antt =====
-- src/bgp.cpp: the states of a session, over the turns of the loop of peer_established.
use log2bgp.Base.{
  ℕ, ◌+◌, ◌*◌, ◌/◌, ◌^◌, ◌≡◌, refl, sym, ap, subst, ◌∙◌, true, false, Option, none, some, List, [],
  ◌++◌, length, ltb, leb, ◌==◌, Result, ok, fault, ensure, ◌>>=◌, Bool-cases, Option-cases,
  write_out_of_bounds, read_out_of_bounds, ==→eq, inl, inr,
}
use log2bgp.Msg.{OpenErrorSubcode, MsgType, msg_type, PeerState}
use log2bgp.Tcp.{Tcp, disconnect, read, connected}
use log2bgp.Peer.{Peer}
use log2bgp.Bgp.{Bgp}
use log2bgp.Decode.Buffer.{byte_at}
use log2bgp.Session.Send.{
  send_packet, send_and_count, count_sent, is_idle, is_update, open_notification,
}
use log2bgp.Session.Open.{
  OpenHeader, accept_open, refuse_open, confirm_open, decode_open, open_header,
}
use log2bgp.Session.Receive.{
  Turn, dispatch, body_read, receive_body, receive_header, header_read, receive, read_count,
  read_bytes, payload_count, decode_notification, handle_keepalive, is_openconfirm, enqueue,
  log_subcode, subcode_texts,
}

-- What the steps of a session are about.
pub record Session : Type 0 where
  pub state : PeerState
  pub asn : ℕ
  pub version : ℕ
  pub hold_time : ℕ
  pub keep_alive : ℕ

unfoldable pub session : Peer → Session
session p = record {
  state = p.state;
  asn = p.asn;
  version = p.version;
  hold_time = p.hold_time;
  keep_alive = p.keep_alive;
}

unfoldable pub up_state : Session → Session
up_state s = record s { state = PeerState.established }

-- The steps: nothing changes; an OPEN is refused and the session idle; an OPEN of the same version
-- and AS is accepted; a session in openconfirm is established.
pub data SessionStep (bgp : Bgp) (p : Peer) : Peer → Type 0 where
  kept : {q : Peer} → session q ≡ session p → SessionStep bgp p q
  refused :
      {q : Peer}
      → q.state ≡ PeerState.idle
      → q.asn ≡ p.asn
      → connected q.tcp ≡ false
      → SessionStep bgp p q
  opened :
      {q : Peer}
      → q.state ≡ PeerState.openconfirm
      → q.asn ≡ p.asn
      → q.version ≡ bgp.version
      → q.keep_alive ≡ q.hold_time / 3
      → SessionStep bgp p q
  established :
      {q : Peer}
      → p.state ≡ PeerState.openconfirm
      → session q ≡ up_state (session p)
      → SessionStep bgp p q

abbrev pub OnOk : (Peer → Type 0) → Result Peer → Type 0
OnOk P (ok q) = P q
OnOk P (fault e) = Unit

pub OnOk->>= {ℓ} :
    {A : Type ℓ} (P : Peer → Type 0) (m : Result A) (f : A → Result Peer)
    → ((a : A) → OnOk P (f a))
    → OnOk P (m >>= f)
OnOk->>= P (ok a) f h = h a
OnOk->>= P (fault e) f h = tt

session-count_sent : (now : ℕ) (t : MsgType) (p : Peer) → session (count_sent now t p) ≡ session p
unfolding session count_sent
session-count_sent now MsgType.open_msg p = refl
session-count_sent now MsgType.update p = refl
session-count_sent now MsgType.notification p = refl
session-count_sent now MsgType.keepalive p = refl
session-count_sent now MsgType.routerefresh p = refl
session-count_sent now (MsgType.unknown b) p = refl

session-send_and_count :
    (now : ℕ) (payload : List ℕ) (t : MsgType) (p : Peer)
    → session (send_and_count now payload t p) ≡ session p
unfolding send_and_count session
session-send_and_count now payload t p = session-count_sent now t _

pub session-send_packet :
    (now : ℕ) (payload : List ℕ) (t : MsgType) (p : Peer)
    → session (send_packet now payload t p) ≡ session p
unfolding send_packet
session-send_packet now payload t p = elim (Bool-cases (is_idle p.state)) [
  | inl e ↦ rw e refl
  | inr e ↦ elim (Bool-cases (is_update t)) [
    | inl f ↦ rw (e, f) refl
    | inr f ↦ rw (e, f) (session-send_and_count now payload t p)
  ]
]

refuse_open-SessionStep :
    (now : ℕ) (bgp : Bgp) (subcode : OpenErrorSubcode) (p q : Peer)
    → q.asn ≡ p.asn
    → SessionStep bgp p (refuse_open now subcode q)
unfolding refuse_open open_notification disconnect connected session
refuse_open-SessionStep now bgp subcode p q h =
    SessionStep.refused refl
      (ap (λ s. s.asn) (session-send_packet now _ MsgType.notification q) ∙ h) refl

confirm_open-SessionStep :
    (now : ℕ) (bgp : Bgp) (h : OpenHeader) (b_ip : List ℕ) (p q : Peer)
    → q.asn ≡ p.asn
    → q.version ≡ bgp.version
    → SessionStep bgp p (confirm_open now h b_ip q)
unfolding confirm_open session
confirm_open-SessionStep now bgp h b_ip p q e f =
    let same = session-send_packet now [] MsgType.keepalive (record q {
      bgp_id = h.bgp_id;
      b_ip = b_ip;
      hold_time = h.hold_time;
      keep_alive = h.hold_time / 3;
      opt_param_len = h.opt_param_len;
      state = PeerState.openconfirm;
    }) in
    SessionStep.opened (ap (λ s. s.state) same) (ap (λ s. s.asn) same ∙ e)
      (ap (λ s. s.version) same ∙ f)
      (ap (λ s. s.keep_alive) same ∙ sym (ap (λ s. s.hold_time / 3) same))

accept_open-SessionStep :
    (now : ℕ) (inet_ntoa : ℕ → Option (List ℕ)) (bgp : Bgp) (h : OpenHeader) (p q : Peer)
    → q.asn ≡ p.asn
    → SessionStep bgp p (accept_open now inet_ntoa bgp h q)
unfolding accept_open
accept_open-SessionStep now inet_ntoa bgp h p q e = elim (Bool-cases (h.version == bgp.version)) [
  | inr v ↦
      rw (v, accept_open) (refuse_open-SessionStep now bgp OpenErrorSubcode.unsup_ver_num p q e)
  | inl v ↦ elim (Bool-cases (h.asn == q.asn)) [
    | inr a ↦
        rw (v, a, accept_open)
          (refuse_open-SessionStep now bgp OpenErrorSubcode.bad_peer_as p
            (record q { version = h.version }) e)
    | inl a ↦ elim (Option-cases (inet_ntoa h.bgp_id)) [
      | inl n ↦
          rw (v, a, n, accept_open)
            (refuse_open-SessionStep now bgp OpenErrorSubcode.bad_bgp_id p
              (record q { version = h.version }) e)
      | inr (b_ip, n) ↦
          rw (v, a, n, accept_open)
            (confirm_open-SessionStep now bgp h b_ip p
              (record q { version = h.version; asn = h.asn }) (==→eq h.asn q.asn a ∙ e)
              (==→eq h.version bgp.version v))
    ]
  ]
]

decode_open-SessionStep :
    (now : ℕ) (inet_ntoa : ℕ → Option (List ℕ)) (bgp : Bgp) (packet : List ℕ) (p q : Peer)
    → q.asn ≡ p.asn
    → OnOk (SessionStep bgp p) (decode_open now inet_ntoa bgp packet q)
unfolding decode_open
decode_open-SessionStep now inet_ntoa bgp packet p q e =
    OnOk->>= _ (open_header packet) (λ h. ok (accept_open now inet_ntoa bgp h q))
      (λ h. accept_open-SessionStep now inet_ntoa bgp h p q e)

is_openconfirm-eq : (s : PeerState) → is_openconfirm s ≡ true → s ≡ PeerState.openconfirm
unfolding is_openconfirm
is_openconfirm-eq PeerState.openconfirm h = refl
is_openconfirm-eq PeerState.idle h = cc
is_openconfirm-eq PeerState.connect h = cc
is_openconfirm-eq PeerState.active h = cc
is_openconfirm-eq PeerState.opensent h = cc
is_openconfirm-eq PeerState.established h = cc
is_openconfirm-eq PeerState.deleted h = cc
is_openconfirm-eq PeerState.clearing h = cc

handle_keepalive-SessionStep :
    (now : ℕ) (bgp : Bgp) (p q : Peer)
    → session q ≡ session p
    → SessionStep bgp p (handle_keepalive now q)
unfolding session handle_keepalive up_state
handle_keepalive-SessionStep now bgp p q e = elim (Bool-cases (is_openconfirm q.state)) [
  | inl c ↦ SessionStep.established (sym (ap (λ s. s.state) e) ∙ is_openconfirm-eq q.state c) (
      rw (c, handle_keepalive)
        (session-send_packet now [] MsgType.keepalive
            (record q { state = PeerState.established; up_since = now })
          ∙ ap up_state e))
  | inr c ↦
      SessionStep.kept
        (rw (c, handle_keepalive) (session-send_packet now [] MsgType.keepalive q ∙ e))
]

log_subcode-SessionStep :
    (bgp : Bgp) (texts : Option ℕ) (subcode : ℕ) (p q : Peer)
    → session q ≡ session p
    → OnOk (SessionStep bgp p) (log_subcode texts subcode q)
unfolding log_subcode
log_subcode-SessionStep bgp none subcode p q e = SessionStep.kept e
log_subcode-SessionStep bgp (some n) subcode p q e =
    OnOk->>= _ (ensure (ltb subcode n) read_out_of_bounds) _ λ _. SessionStep.kept e

dispatch-SessionStep :
    (t : Turn) (bgp : Bgp) (mt : MsgType) (body : List ℕ) (p q : Peer)
    → session q ≡ session p
    → OnOk (SessionStep bgp p) (dispatch t bgp mt body q)
unfolding dispatch session decode_notification enqueue
dispatch-SessionStep t bgp MsgType.open_msg body p q e =
    decode_open-SessionStep t.now t.inet_ntoa bgp (body ++ t.stale) p _ (ap (λ s. s.asn) e)
dispatch-SessionStep t bgp MsgType.keepalive body p q e =
    handle_keepalive-SessionStep t.now bgp p _ e
dispatch-SessionStep t bgp MsgType.notification body p q e =
    OnOk->>= _ (byte_at (body ++ t.stale) 0) _ λ code.
      OnOk->>= _ (byte_at (body ++ t.stale) 1) _
        λ subcode. log_subcode-SessionStep bgp (subcode_texts code) subcode p _ e
dispatch-SessionStep t bgp MsgType.update body p q e =
    OnOk->>= _ (ensure (leb (length body) 4096) write_out_of_bounds) _ λ _. SessionStep.kept e
dispatch-SessionStep t bgp MsgType.routerefresh body p q e = SessionStep.kept e
dispatch-SessionStep t bgp (MsgType.unknown b) body p q e = SessionStep.kept e

body_read-SessionStep :
    (t : Turn) (bgp : Bgp) (len : ℕ) (mt : MsgType) (p q : Peer) (got : Option (List ℕ) × Tcp)
    → session q ≡ session p
    → OnOk (SessionStep bgp p) (body_read t bgp len mt q got)
unfolding body_read session
body_read-SessionStep t bgp len mt p q (got, tcp) e =
    OnOk->>= _ (ensure (leb (length (read_bytes got)) len) write_out_of_bounds) _ λ _.
      elim (Bool-cases (read_count got == payload_count len)) [
        | inr h ↦ rw h (SessionStep.kept e)
        | inl h ↦ rw h (dispatch-SessionStep t bgp mt (read_bytes got) p (record q { tcp = tcp }) e)
      ]

receive_body-SessionStep :
    (t : Turn) (bgp : Bgp) (len : ℕ) (mt : MsgType) (p q : Peer)
    → session q ≡ session p
    → OnOk (SessionStep bgp p) (receive_body t bgp len mt q)
unfolding receive_body
receive_body-SessionStep t bgp len mt p q e =
    body_read-SessionStep t bgp len mt p q (read (payload_count len) q.tcp) e

header_read-SessionStep :
    (t : Turn) (bgp : Bgp) (p : Peer) (got : Option (List ℕ) × Tcp)
    → OnOk (SessionStep bgp p) (header_read t bgp p got)
unfolding header_read receive_header session
header_read-SessionStep t bgp p (got, tcp) = elim (Bool-cases (read_count got == 19)) [
  | inr e ↦ rw (header_read, e) (SessionStep.kept refl)
  | inl e ↦
      rw (header_read, e)
        (OnOk->>= _ (byte_at (read_bytes got) 16) _ λ a.
          OnOk->>= _ (byte_at (read_bytes got) 17) _ λ b.
            OnOk->>= _ (byte_at (read_bytes got) 18) _
              λ c. receive_body-SessionStep t bgp (a * 2 ^ 8 + b) (msg_type c) p _ refl)
]

pub receive-SessionStep :
    (t : Turn) (bgp : Bgp) (p : Peer) → OnOk (SessionStep bgp p) (receive t bgp p)
unfolding receive
receive-SessionStep t bgp p = header_read-SessionStep t bgp p (read 19 p.tcp)

pub OnOk-ok : (P : Peer → Type 0) (r : Result Peer) (q : Peer) → OnOk P r → r ≡ ok q → P q
OnOk-ok P r q h e = subst (OnOk P) e h

-- A turn of the loop of peer_established that returns takes one step of the session.
pub receive_step :
    (t : Turn) (bgp : Bgp) (p q : Peer) → receive t bgp p ≡ ok q → SessionStep bgp p q
receive_step t bgp p q =
    OnOk-ok (SessionStep bgp p) (receive t bgp p) q (receive-SessionStep t bgp p)
