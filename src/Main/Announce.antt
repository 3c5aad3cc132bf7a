-- ===== src/Main/Announce.antt =====
-- src/bgp.cpp and src/bgp_update.cpp: a message that announces routes, from the queue of its peer to
-- the table, in one turn of the loop.
use log2bgp.Base.{
  ℕ, ◌+◌, ◌^◌, ◌<◌, ◌≡◌, refl, sym, ap, subst, ◌∙◌, true, some, List, [], ◌∷◌, ◌++◌, map, length,
  ◌==◌, ok, ◌>>=◌, All, Bool-cases, inl, inr, arith,
}
use log2bgp.Msg.{Update, assign}
use log2bgp.Peer.{Peer, QueueData}
use log2bgp.Decode.Nlri.{new_nlri}
use log2bgp.Bgp.{Bgp, NlriParse}
use log2bgp.Threads.{get_peer_by_bgp_id}
use log2bgp.Database.{PrefixEntry}
use log2bgp.Rib.{process_withdrawals, proc_adj_rib_in_queue, proc_adj_rib_wdraw_queue}
use log2bgp.Rib.Queues.{route, process_updates-wdraw_q}
use log2bgp.Rib.Latest.{HasPeer, latest, route-proc_adj_rib_in_queue}
use log2bgp.Session.Timer.{is_established}
use log2bgp.Decode.{process_packet, padded}
use log2bgp.Decode.Nlri.RoundTrip.{Route, IsRoute, queued, append_queue}
use log2bgp.Decode.Announce.{
  Flagged, encode_attribs, AllFit, announce_packet, announced, process_packet-announce_packet,
}
use log2bgp.Main.{proc_peers, proc_queues, main_turn}
use log2bgp.Main.Quiet.{Silent, ids, proc_in_q-Silent, proc_peers-Silent, proc_in_q_single}

-- A turn over the peers, of which one has a message in its queue.
proc_peers_single :
    (now : ℕ) (b c : Bgp) (before behind : List Peer) (p : Peer) (d : QueueData)
    → is_established p.state ≡ true
    → now < p.last_io.last_read + p.hold_time
    → p.in_queue ≡ d ∷ []
    → All Silent before
    → All Silent behind
    → process_packet now p.bgp_id (padded d) b ≡ ok c
    → (qs : List Peer) × (proc_peers now (before ++ p ∷ behind) b ≡ ok (qs, c))
      × (ids qs ≡ ids (before ++ p ∷ behind))
unfolding proc_peers
proc_peers_single now b c [] behind p d s live h f g e =
    let (q, e', i) = proc_in_q_single now b c p d s live h e in
    let (qs, es, is) = proc_peers-Silent now behind c g in
    (q ∷ qs, rw (e', es) refl, rw (i, is) refl)
proc_peers_single now b c (o ∷ before) behind p d s live h f g e =
    let (q, e', i) = proc_in_q-Silent now o b f.0 in
    let (qs, es, is) = proc_peers_single now b c before behind p d s live h f.1 g e in
    (q ∷ qs, rw (e', es) refl, rw (i, is) refl)

-- The ids say which peers the table has.
get_peer-ids :
    (i : ℕ) (qs before behind : List Peer) (p : Peer)
    → p.bgp_id ≡ i
    → ids qs ≡ ids (before ++ p ∷ behind)
    → (q : Peer) × (get_peer_by_bgp_id i qs ≡ some q)
unfolding get_peer_by_bgp_id
get_peer-ids i [] [] behind p e h = absurd (ground arith)
get_peer-ids i [] (o ∷ before) behind p e h = absurd (ground arith)
get_peer-ids i (q ∷ qs) [] behind p e h = (q, ground arith)
get_peer-ids i (q ∷ qs) (o ∷ before) behind p e h = elim (Bool-cases (q.bgp_id == i)) [
  | inl k ↦ (q, rw (k, get_peer_by_bgp_id) refl)
  | inr k ↦
      let (r, e') = get_peer-ids i qs before behind p e (ground arith) in
      (r, rw (k, get_peer_by_bgp_id) e')
]

queued-HasPeer :
    (now i : ℕ) (q : List Peer) (p : Peer) (u : Update) (rs : List Route)
    → get_peer_by_bgp_id i q ≡ some p
    → All (HasPeer q) (map (queued NlriParse.update now i u) rs)
unfolding queued assign new_nlri
queued-HasPeer now i q p u [] h = tt
queued-HasPeer now i q p u (r ∷ rs) h = ((p, h), queued-HasPeer now i q p u rs h)

-- The queues after the turn over the peers, where only updates wait.
proc_queues-updates :
    (k : PrefixEntry) (qs : List Peer) (us : List Update) (b : Bgp)
    → b.adj_rib_in_q ≡ us
    → b.adj_rib_in_wdraw_q ≡ []
    → All (HasPeer qs) us
    → (c : Bgp) × (proc_queues (qs, b) ≡ ok c) × (route k c ≡ latest k us (route k b))
unfolding proc_queues proc_adj_rib_wdraw_queue proc_adj_rib_in_queue process_withdrawals
proc_queues-updates k qs us b e w h =
    let d = record b { thread_q = qs } in
    let x = proc_adj_rib_in_queue d in
    (
      record x { adj_rib_in_wdraw_q = [] },
      ap (λ l. process_withdrawals l x) (process_updates-wdraw_q b.adj_rib_in_q d ∙ w),
      route-proc_adj_rib_in_queue k d (subst (All (HasPeer qs)) (sym e) h)
          ∙ ap (λ l. latest k l (route k b)) e,
    )

-- In a table where only one peer has a message in its queue, one that announces routes whose
-- attributes fit, where that peer is established and within its hold time, and where no update and no
-- withdrawal waits, a turn of the loop returns, and under each key the table then has the last route
-- that the message announces for it from that peer, or the old one where it announces none.
pub main_turn-announce_packet :
    (now : ℕ) (ats : List Flagged) (rs : List Route) (k : PrefixEntry) (b : Bgp)
    (before behind : List Peer) (p : Peer)
    → b.thread_q ≡ before ++ p ∷ behind
    → All Silent before
    → All Silent behind
    → is_established p.state ≡ true
    → now < p.last_io.last_read + p.hold_time
    → p.in_queue ≡ announce_packet ats rs ∷ []
    → length (encode_attribs ats) < 2 ^ 16
    → AllFit ats
    → All IsRoute rs
    → b.adj_rib_in_q ≡ []
    → b.adj_rib_in_wdraw_q ≡ []
    → (c : Bgp) × (main_turn now b ≡ ok c)
      × (route k c
          ≡ latest k (map (queued NlriParse.update now p.bgp_id (announced ats)) rs) (route k b))
unfolding main_turn append_queue
main_turn-announce_packet now ats rs k b before behind p t f g s live h size fit w e e' =
    let us = map (queued NlriParse.update now p.bgp_id (announced ats)) rs in
    let (qs, e1, i) =
      proc_peers_single now b (append_queue NlriParse.update us b) before behind p
        (announce_packet ats rs) s live h f g
        (process_packet-announce_packet now p.bgp_id ats rs b size fit w) in
    let (q, has) = get_peer-ids p.bgp_id qs before behind p refl i in
    let (c, e2, r) =
      proc_queues-updates k qs us (append_queue NlriParse.update us b) (ap (λ l. l ++ us) e) e'
        (queued-HasPeer now p.bgp_id qs q (announced ats) rs has) in
    (c, ap (λ l. proc_peers now l b >>= proc_queues) t ∙ ap (λ m. m >>= proc_queues) e1 ∙ e2, r)
