-- ===== src/Main/Quiet.antt =====
-- src/bgp.cpp and src/bgp_update.cpp: what a turn of the loop makes of peers, whose queues are empty
-- but for one.
use log2bgp.Base.{
  ℕ, ◌+◌, ◌<◌, ◌≡◌, refl, ap, ◌∙◌, Bool, true, false, List, [], ◌∷◌, map, leb, if◌then◌else◌,
  Result, ok, All, Bool-cases, inl, inr, arith,
}
use log2bgp.Msg.{MsgType}
use log2bgp.Peer.{Peer, QueueData}
use log2bgp.Bgp.{Bgp}
use log2bgp.Session.Send.{is_idle, is_update, count_sent, send_and_count, send_packet, notification}
use log2bgp.Session.Timer.{expire, check_timers, is_established, hold_timer_expired, proc_in_q}
use log2bgp.Decode.{process_queue, process_packet, padded}
use log2bgp.Main.{proc_peers}
use log2bgp.Session.Expiry.{hold_timer_alive}
use log2bgp.Base.Words.{dec16}

-- What sending and the timers keep of a peer.
pub record Kept (p q : Peer) : Type 0 where
  pub bgp_id : q.bgp_id ≡ p.bgp_id
  pub in_queue : q.in_queue ≡ p.in_queue

Kept-count_sent : (now : ℕ) (t : MsgType) (p : Peer) → Kept p (count_sent now t p)
unfolding count_sent
Kept-count_sent now MsgType.open_msg p = record { bgp_id = refl; in_queue = refl }
Kept-count_sent now MsgType.update p = record { bgp_id = refl; in_queue = refl }
Kept-count_sent now MsgType.notification p = record { bgp_id = refl; in_queue = refl }
Kept-count_sent now MsgType.keepalive p = record { bgp_id = refl; in_queue = refl }
Kept-count_sent now MsgType.routerefresh p = record { bgp_id = refl; in_queue = refl }
Kept-count_sent now (MsgType.unknown b) p = record { bgp_id = refl; in_queue = refl }

pub Kept-send_packet :
    (now : ℕ) (payload : List ℕ) (t : MsgType) (p : Peer) → Kept p (send_packet now payload t p)
unfolding send_packet send_and_count
Kept-send_packet now payload t p = elim (Bool-cases (is_idle p.state)) [
  | inl e ↦ rw (e, send_packet) (record { bgp_id = refl; in_queue = refl })
  | inr e ↦ elim (Bool-cases (is_update t)) [
    | inl f ↦ rw (e, f, send_packet) (record { bgp_id = refl; in_queue = refl })
    | inr f ↦
        let w = Kept-count_sent now t _ in
        rw (e, f, send_packet) (record { bgp_id = w.bgp_id; in_queue = w.in_queue })
  ]
]

pub Kept-hold_timer_expired : (now : ℕ) (p : Peer) → Kept p (hold_timer_expired now p).1
unfolding hold_timer_expired check_timers expire notification
Kept-hold_timer_expired now p = elim (Bool-cases (is_established p.state)) [
  | inr e ↦ rw (e, hold_timer_expired) (record { bgp_id = refl; in_queue = refl })
  | inl e ↦ elim (Bool-cases (leb (p.last_io.last_read + p.hold_time) now)) [
    | inl h ↦
        let w = Kept-send_packet now _ MsgType.notification p in
        rw (e, h, hold_timer_expired, check_timers)
          (record { bgp_id = w.bgp_id; in_queue = w.in_queue })
    | inr h ↦ elim (Bool-cases (leb (p.keepaliv.last_tx + p.keep_alive) now)) [
      | inl k ↦
          rw (e, h, k, hold_timer_expired, check_timers)
            (Kept-send_packet now [] MsgType.keepalive p)
      | inr k ↦
          rw (e, h, k, hold_timer_expired, check_timers) (record { bgp_id = refl; in_queue = refl })
    ]
  ]
]

-- proc_in_q after the test of the timers.
abbrev proc_after : ℕ → Bgp → Bool × Peer → Result (Peer × Bgp)
proc_after now b (expired, q) = if expired then ok (q, b) else process_queue now q.in_queue q b

-- A peer whose queue is empty.
abbrev pub Silent : Peer → Type 0
Silent p = p.in_queue ≡ []

proc_after-Silent :
    (now : ℕ) (b : Bgp) (p : Peer) (x : Bool × Peer)
    → Kept p x.1
    → Silent p
    → (r : Peer) × (proc_after now b x ≡ ok (r, b)) × (r.bgp_id ≡ p.bgp_id)
unfolding process_queue
proc_after-Silent now b p (true, q) k h = (q, refl, k.bgp_id)
proc_after-Silent now b p (false, q) k h =
    (q, ap (λ l. process_queue now l q b) (k.in_queue ∙ h), k.bgp_id)

pub proc_in_q-Silent :
    (now : ℕ) (p : Peer) (b : Bgp)
    → Silent p
    → (r : Peer) × (proc_in_q now p b ≡ ok (r, b)) × (r.bgp_id ≡ p.bgp_id)
unfolding proc_in_q
proc_in_q-Silent now p b h =
    proc_after-Silent now b p (hold_timer_expired now p) (Kept-hold_timer_expired now p) h

-- The peers after a turn, under the ids of before.
abbrev pub ids : List Peer → List ℕ
ids ps = map (λ p. p.bgp_id) ps

pub proc_peers-Silent :
    (now : ℕ) (ps : List Peer) (b : Bgp)
    → All Silent ps
    → (qs : List Peer) × (proc_peers now ps b ≡ ok (qs, b)) × (ids qs ≡ ids ps)
unfolding proc_peers
proc_peers-Silent now [] b h = ([], refl, refl)
proc_peers-Silent now (p ∷ ps) b h =
    let (q, e, i) = proc_in_q-Silent now p b h.0 in
    let (qs, es, is) = proc_peers-Silent now ps b h.1 in (q ∷ qs, rw (e, es) refl, rw (i, is) refl)

proc_after-single :
    (now : ℕ) (b c : Bgp) (p : Peer) (d : QueueData) (x : Bool × Peer)
    → Kept p x.1
    → x.0 ≡ false
    → p.in_queue ≡ d ∷ []
    → process_packet now p.bgp_id (padded d) b ≡ ok c
    → (r : Peer) × (proc_after now b x ≡ ok (r, c)) × (r.bgp_id ≡ p.bgp_id)
unfolding process_queue
proc_after-single now b c p d (true, q) k f h e = absurd (ground arith)
proc_after-single now b c p d (false, q) k f h e = (
  record q { in_queue = []; in_q = dec16 q.in_q },
  ap (λ l. process_queue now l q b) (k.in_queue ∙ h) ∙ rw (k.bgp_id, e) refl,
  k.bgp_id,
)

-- A live peer with one message in its queue: the message is decoded under the id of the peer.
pub proc_in_q_single :
    (now : ℕ) (b c : Bgp) (p : Peer) (d : QueueData)
    → is_established p.state ≡ true
    → now < p.last_io.last_read + p.hold_time
    → p.in_queue ≡ d ∷ []
    → process_packet now p.bgp_id (padded d) b ≡ ok c
    → (r : Peer) × (proc_in_q now p b ≡ ok (r, c)) × (r.bgp_id ≡ p.bgp_id)
unfolding proc_in_q
proc_in_q_single now b c p d s live h e =
    proc_after-single now b c p d (hold_timer_expired now p) (Kept-hold_timer_expired now p)
      ((hold_timer_alive now p s live).0) h e
