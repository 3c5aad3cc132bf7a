-- ===== src/Session/Established/Ends.antt =====
-- src/bgp.cpp: the loop of peer_established ends, since every turn reads some of what is left of the
-- input.
use log2bgp.Base.{
  ℕ, zero, suc, ◌+◌, ◌*◌, ◌^◌, ◌≤◌, ◌<◌, ◌≡◌, ◌≢◌, refl, Bool, true, false, not, ◌&&◌, Option, none,
  some, List, [], ◌++◌, ◌-◌, length, get_elem?, ltb, leb, ◌==◌, Result, ok, fault, Fault, no_fuel,
  ensure, or_fault, ◌>>=◌, Bool-cases, Option-cases, write_out_of_bounds, read_out_of_bounds,
  null_pointer, use_after_free, inl, inr, arith,
}
use log2bgp.Msg.{OpenErrorSubcode, MsgType, msg_type}
use log2bgp.Tcp.{Tcp, RxStream, disconnect, read, connected}
use log2bgp.Peer.{Peer}
use log2bgp.Bgp.{Bgp}
use log2bgp.Decode.Buffer.{byte_at}
use log2bgp.Session.Send.{is_idle}
use log2bgp.Session.Open.{
  OpenHeader, accept_open, refuse_open, confirm_open, decode_open, open_header,
}
use log2bgp.Session.Receive.{
  Turn, dispatch, body_read, receive_body, receive_header, header_read, receive, read_count,
  read_bytes, payload_count, decode_notification, handle_keepalive, is_openconfirm, enqueue,
  log_subcode, subcode_texts,
}
use log2bgp.Session.Established.Unread.{
  left_of, unread, unread-send_packet, connected-unread, unread-read, unread-read_lt,
}
use log2bgp.Session.Established.{pending_bytes, close_session, receive_loop, peer_established}

is_no_fuel : Fault → Bool
is_no_fuel no_fuel = true
is_no_fuel read_out_of_bounds = false
is_no_fuel write_out_of_bounds = false
is_no_fuel null_pointer = false
is_no_fuel use_after_free = false

-- No fuel has run out, and what is left to read is at most `n`.
Settled : ℕ → Result Peer → Type 0
Settled n (ok q) = unread q.tcp ≤ n
Settled n (fault e) = is_no_fuel e ≡ false

Fueled {ℓ} : {A : Type ℓ} → Result A → Type 0
Fueled (ok a) = Unit
Fueled (fault e) = is_no_fuel e ≡ false

Settled->>= {ℓ} :
    {A : Type ℓ} (n : ℕ) (m : Result A) (f : A → Result Peer)
    → Fueled m
    → ((a : A) → Settled n (f a))
    → Settled n (m >>= f)
unfolding Settled Fueled
Settled->>= n (ok a) f h k = k a
Settled->>= n (fault e) f h k = h

or_fault-Fueled : {A : Type 0} (o : Option A) → Fueled (or_fault o read_out_of_bounds)
unfolding Fueled is_no_fuel
or_fault-Fueled none = refl
or_fault-Fueled (some a) = tt

byte_at-Fueled : (packet : List ℕ) (i : ℕ) → Fueled (byte_at packet i)
unfolding byte_at
byte_at-Fueled packet i = or_fault-Fueled (get_elem? packet i)

ensure-Fueled : (b : Bool) (e : Fault) → is_no_fuel e ≡ false → Fueled (ensure b e)
unfolding Fueled
ensure-Fueled true e h = tt
ensure-Fueled false e h = h

refuse_open-unread :
    (now : ℕ) (subcode : OpenErrorSubcode) (p : Peer) → unread (refuse_open now subcode p).tcp ≡ 0
unfolding refuse_open disconnect unread left_of
refuse_open-unread now subcode p = refl

confirm_open-unread :
    (now : ℕ) (h : OpenHeader) (b_ip : List ℕ) (p : Peer)
    → unread (confirm_open now h b_ip p).tcp ≡ unread p.tcp
unfolding confirm_open
confirm_open-unread now h b_ip p = unread-send_packet now [] MsgType.keepalive _

accept_open-unread :
    (now : ℕ) (inet_ntoa : ℕ → Option (List ℕ)) (bgp : Bgp) (h : OpenHeader) (p : Peer)
    → unread (accept_open now inet_ntoa bgp h p).tcp ≤ unread p.tcp
unfolding accept_open
accept_open-unread now inet_ntoa bgp h p = elim (Bool-cases (h.version == bgp.version)) [
  | inr v ↦
      rw (v, accept_open) (omega (arith, refuse_open-unread now OpenErrorSubcode.unsup_ver_num p))
  | inl v ↦ elim (Bool-cases (h.asn == p.asn)) [
    | inr a ↦
        rw (v, a, accept_open)
          (omega (
            arith,
            refuse_open-unread now OpenErrorSubcode.bad_peer_as (record p { version = h.version }),
          ))
    | inl a ↦ elim (Option-cases (inet_ntoa h.bgp_id)) [
      | inl n ↦
          rw (v, a, n, accept_open)
            (omega (
              arith,
              refuse_open-unread now OpenErrorSubcode.bad_bgp_id (record p { version = h.version }),
            ))
      | inr (b_ip, n) ↦
          rw (v, a, n, accept_open)
            (omega (
              arith,
              confirm_open-unread now h b_ip (record p { version = h.version; asn = h.asn }),
            ))
    ]
  ]
]

byte_at-then :
    {A : Type 0} (packet : List ℕ) (i : ℕ) (f : ℕ → Result A)
    → ((a : ℕ) → Fueled (f a))
    → Fueled (byte_at packet i >>= f)
unfolding byte_at Fueled is_no_fuel
byte_at-then packet i f h = elim (Option-cases (get_elem? packet i)) [
  | inl e ↦ rw (e, Fueled) refl
  | inr (a, e) ↦ rw (e, Fueled) (h a)
]

open_header-Fueled : (packet : List ℕ) → Fueled (open_header packet)
unfolding open_header Fueled
open_header-Fueled packet = byte_at-then packet 0 _ λ version. byte_at-then packet 1 _ λ a1.
    byte_at-then packet 2 _ λ a2. byte_at-then packet 3 _ λ h3. byte_at-then packet 4 _ λ h4.
      byte_at-then packet 5 _ λ i5. byte_at-then packet 6 _ λ i6.
        byte_at-then packet 7 _
          λ i7. byte_at-then packet 8 _ λ i8. byte_at-then packet 9 _ λ opt. tt

handle_keepalive-unread : (now : ℕ) (p : Peer) → unread (handle_keepalive now p).tcp ≡ unread p.tcp
unfolding handle_keepalive
handle_keepalive-unread now p = elim (Bool-cases (is_openconfirm p.state)) [
  | inl c ↦ rw (c, handle_keepalive) (unread-send_packet now [] MsgType.keepalive _)
  | inr c ↦ rw (c, handle_keepalive) (unread-send_packet now [] MsgType.keepalive p)
]

log_subcode-Settled :
    (n : ℕ) (texts : Option ℕ) (subcode : ℕ) (p : Peer)
    → unread p.tcp ≤ n
    → Settled n (log_subcode texts subcode p)
unfolding log_subcode Settled is_no_fuel
log_subcode-Settled n none subcode p h = h
log_subcode-Settled n (some m) subcode p h =
    Settled->>= n (ensure (ltb subcode m) read_out_of_bounds) _
      (ensure-Fueled (ltb subcode m) read_out_of_bounds refl) (λ u. h)

dispatch-Settled :
    (n : ℕ) (t : Turn) (bgp : Bgp) (mt : MsgType) (body : List ℕ) (p : Peer)
    → unread p.tcp ≤ n
    → Settled n (dispatch t bgp mt body p)
unfolding dispatch Settled decode_notification enqueue decode_open is_no_fuel
dispatch-Settled n t bgp MsgType.open_msg body p h =
    Settled->>= n (open_header (body ++ t.stale)) _ (open_header-Fueled (body ++ t.stale))
      (λ header.
        omega (arith, accept_open-unread t.now t.inet_ntoa bgp header (record p { opens = _ }), h))
dispatch-Settled n t bgp MsgType.keepalive body p h =
    omega (arith, handle_keepalive-unread t.now (record p { keepaliv = _ }), h)
dispatch-Settled n t bgp MsgType.notification body p h =
    Settled->>= n (byte_at (body ++ t.stale) 0) _ (byte_at-Fueled (body ++ t.stale) 0) λ code.
      Settled->>= n (byte_at (body ++ t.stale) 1) _ (byte_at-Fueled (body ++ t.stale) 1)
        λ subcode. log_subcode-Settled n (subcode_texts code) subcode _ h
dispatch-Settled n t bgp MsgType.update body p h =
    Settled->>= n (ensure (leb (length body) 4096) write_out_of_bounds) _
      (ensure-Fueled (leb (length body) 4096) write_out_of_bounds refl) (λ u. h)
dispatch-Settled n t bgp MsgType.routerefresh body p h = h
dispatch-Settled n t bgp (MsgType.unknown b) body p h = h

body_read-Settled :
    (n : ℕ) (t : Turn) (bgp : Bgp) (len : ℕ) (mt : MsgType) (p : Peer) (got : Option (List ℕ) × Tcp)
    → unread got.1 ≤ n
    → Settled n (body_read t bgp len mt p got)
unfolding body_read Settled is_no_fuel
body_read-Settled n t bgp len mt p (got, tcp) h =
    Settled->>= n (ensure (leb (length (read_bytes got)) len) write_out_of_bounds) _
      (ensure-Fueled (leb (length (read_bytes got)) len) write_out_of_bounds refl)
      (λ u. elim (Bool-cases (read_count got == payload_count len)) [
        | inr e ↦ rw e h
        | inl e ↦ rw e (dispatch-Settled n t bgp mt (read_bytes got) (record p { tcp = tcp }) h)
      ])

receive_body-Settled :
    (n : ℕ) (t : Turn) (bgp : Bgp) (len : ℕ) (mt : MsgType) (p : Peer)
    → unread p.tcp ≤ n
    → Settled n (receive_body t bgp len mt p)
unfolding receive_body
receive_body-Settled n t bgp len mt p h =
    body_read-Settled n t bgp len mt p (read (payload_count len) p.tcp)
      (omega (arith, unread-read (payload_count len) p.tcp))

header_read-Settled :
    (n : ℕ) (t : Turn) (bgp : Bgp) (p : Peer) (got : Option (List ℕ) × Tcp)
    → unread got.1 ≤ n
    → Settled n (header_read t bgp p got)
unfolding header_read receive_header Settled
header_read-Settled n t bgp p (got, tcp) h = elim (Bool-cases (read_count got == 19)) [
  | inr e ↦ rw (header_read, e) h
  | inl e ↦
      rw (header_read, e)
        (Settled->>= n (byte_at (read_bytes got) 16) _ (byte_at-Fueled (read_bytes got) 16) λ a.
          Settled->>= n (byte_at (read_bytes got) 17) _ (byte_at-Fueled (read_bytes got) 17) λ b.
            Settled->>= n (byte_at (read_bytes got) 18) _ (byte_at-Fueled (read_bytes got) 18)
              λ c. receive_body-Settled n t bgp (a * 2 ^ 8 + b) (msg_type c) _ h)
]

receive-Settled :
    (n : ℕ) (t : Turn) (bgp : Bgp) (p : Peer)
    → connected p.tcp ≡ true
    → unread p.tcp ≤ suc n
    → Settled n (receive t bgp p)
unfolding receive
receive-Settled n t bgp p c h =
    header_read-Settled n t bgp p (read 19 p.tcp) (omega (arith, unread-read_lt 18 p.tcp c))

Fueled-ne : {A : Type 0} (r : Result A) → Fueled r → r ≢ fault no_fuel
unfolding Fueled is_no_fuel
Fueled-ne (ok q) h e = cc
Fueled-ne (fault no_fuel) h e = cc
Fueled-ne (fault read_out_of_bounds) h e = cc
Fueled-ne (fault write_out_of_bounds) h e = cc
Fueled-ne (fault null_pointer) h e = cc
Fueled-ne (fault use_after_free) h e = cc

Fueled->>= :
    {A : Type 0} (n : ℕ) (m : Result Peer) (f : Peer → Result A)
    → Settled n m
    → ((q : Peer) → unread q.tcp ≤ n → Fueled (f q))
    → Fueled (m >>= f)
unfolding Settled Fueled
Fueled->>= n (ok q) f h k = k q h
Fueled->>= n (fault e) f h k = h

receive_loop-Fueled :
    (fuel : ℕ) (turns : ℕ → Turn) (bgp : Bgp) (p : Peer)
    → unread p.tcp < fuel
    → Fueled (receive_loop fuel turns bgp p)
unfolding receive_loop Fueled
receive_loop-Fueled zero turns bgp p h = absurd (omega arith)
receive_loop-Fueled (suc fuel) turns bgp p h =
    elim (Bool-cases (connected p.tcp && not (is_idle p.state) && not bgp.stop_and_exit_instance)) [
      | inr e ↦ rw (e, receive_loop, Fueled) tt
      | inl e ↦
          let c : connected p.tcp ≡ true = ground (arith, e) in
          let (r, f, l) = connected-unread p.tcp c in
          rw (e, receive_loop)
            (Fueled->>= (fuel - 1) (receive (turns fuel) bgp p) (receive_loop fuel turns bgp)
              (receive-Settled (fuel - 1) (turns fuel) bgp p c (omega (arith, l)))
              (λ q k. receive_loop-Fueled fuel turns bgp q (omega (arith, l))))
    ]

Fueled-map : {A B : Type 0} (m : Result A) (f : A → B) → Fueled m → Fueled (m >>= λ a. ok (f a))
unfolding Fueled
Fueled-map (ok a) f h = tt
Fueled-map (fault e) f h = h

unread-pending_bytes : (t : Tcp) (x : Option RxStream) → t.rx ≡ x → unread t ≤ suc (pending_bytes t)
unfolding unread left_of pending_bytes
unread-pending_bytes t none e = rw e (omega arith)
unread-pending_bytes t (some r) e = rw e (ground arith)

-- The loop of peer_established ends, whatever the peer sends and whatever each turn is given: as many
-- turns as there are bytes left to read on an open input that is not at its end, and two more, are
-- enough for it to return or to fault on what it reads.
pub peer_established_ends :
    (fuel : ℕ) (turns : ℕ → Turn) (p : Peer) (b : Bgp)
    → suc (pending_bytes p.tcp) < fuel
    → peer_established fuel turns p b ≢ fault no_fuel
unfolding peer_established
peer_established_ends fuel turns p b h =
    Fueled-ne (receive_loop fuel turns b p >>= λ q. ok (close_session q b)) (
      Fueled-map (receive_loop fuel turns b p) (λ q. close_session q b)
        (receive_loop-Fueled fuel turns b p
          (omega (arith, unread-pending_bytes p.tcp p.tcp.rx refl))))
