-- ===== src/Rib/Latest.antt =====
-- src/bgp.cpp: the update queue leaves the last update of each key in the table, and the withdraw
-- queue runs without a fault where its peers are in the neighbor table.
use log2bgp.Base.{
  ℕ, ◌+◌, ◌≡◌, refl, ap, sym, subst, ◌∙◌, Option, none, some, List, [], ◌∷◌, All, inl, inr, arith,
  Result, ok, fault, ◌>>=◌, ◌==◌, if◌then◌else◌, Bool-cases, ==→eq,
}
use log2bgp.Msg.{Update, assign}
use log2bgp.Peer.{Peer}
use log2bgp.Database.{PrefixEntry, prefix_entry}
use log2bgp.Bgp.{Bgp, NlriParse}
use log2bgp.Threads.{
  get_peer_by_bgp_id, through_peer, get_peer-through_peer_self, get_peer-through_peer_ne,
  get_peer-bgp_id,
}
use log2bgp.Rib.Counters.{thread_q-dump}
use log2bgp.Rib.Queues.{route, same_place, route-peer_entry}
use log2bgp.Rib.{
  peer_entry, enter_if_peer, enter, withdraw, withdraw_found, remove_route, dump, process_updates,
  process_withdrawals, proc_adj_rib_in_queue, proc_adj_rib_wdraw_queue, count_new, count_implicit,
  count_withdraw,
}

-- A peer of the table has sent the update.
abbrev pub HasPeer : List Peer → Update → Type 0
HasPeer q u = (p : Peer) × (get_peer_by_bgp_id u.nlri.bgp_id q ≡ some p)

through_peer-HasPeer :
    (i : ℕ) (f : Peer → Peer) (q : List Peer) (u : Update)
    → ((r : Peer) → (f r).bgp_id ≡ r.bgp_id)
    → HasPeer q u
    → HasPeer (through_peer i f q) u
through_peer-HasPeer i f q u keeps (p, e) = elim (Bool-cases (i == u.nlri.bgp_id)) [
  | inl same ↦
      let at_u = ==→eq i u.nlri.bgp_id same in
      (
        f p,
        subst (λ j. get_peer_by_bgp_id u.nlri.bgp_id (through_peer j f q) ≡ some (f p)) (sym at_u)
            (get_peer-through_peer_self u.nlri.bgp_id f q p e
              (keeps p ∙ get_peer-bgp_id u.nlri.bgp_id q p e)),
      )
  | inr other ↦ (p, get_peer-through_peer_ne i u.nlri.bgp_id f q keeps other ∙ e)
]

enter-HasPeer :
    (v u : Update) (o : Option Update) (b : Bgp)
    → HasPeer b.thread_q u
    → HasPeer (enter v o b).thread_q u
unfolding enter
enter-HasPeer v u none b h = through_peer-HasPeer v.nlri.bgp_id count_new b.thread_q u (λ r. refl) h
enter-HasPeer v u (some old) b h =
    through_peer-HasPeer v.nlri.bgp_id count_implicit b.thread_q u (λ r. refl) h

enter_if_peer-HasPeer :
    (v u : Update) (o : Option Peer) (b : Bgp)
    → HasPeer b.thread_q u
    → HasPeer (enter_if_peer v o b).thread_q u
unfolding enter_if_peer
enter_if_peer-HasPeer v u none b h = h
enter_if_peer-HasPeer v u (some p) b h = enter-HasPeer v u _ b h

peer_entry-HasPeer :
    (v u : Update) (b : Bgp) → HasPeer b.thread_q u → HasPeer (peer_entry v b).thread_q u
unfolding peer_entry
peer_entry-HasPeer v u b h =
    enter_if_peer-HasPeer v u _ (dump NlriParse.update v b)
      (subst (λ q. HasPeer q u) (sym (thread_q-dump NlriParse.update v b)) h)

peer_entry-All-HasPeer :
    (v : Update) (us : List Update) (b : Bgp)
    → All (HasPeer b.thread_q) us
    → All (HasPeer (peer_entry v b).thread_q) us
peer_entry-All-HasPeer v [] b h = tt
peer_entry-All-HasPeer v (u ∷ us) b h =
    (peer_entry-HasPeer v u b h.0, peer_entry-All-HasPeer v us b h.1)

-- The last of the updates of a key, or what was there before.
abbrev pub latest : PrefixEntry → List Update → Option Update → Option Update
latest k [] o = o
latest k (u ∷ us) o =
    latest k us (if same_place (prefix_entry u.nlri) k then some (assign u) else o)

route-process_updates :
    (k : PrefixEntry) (us : List Update) (b : Bgp)
    → All (HasPeer b.thread_q) us
    → route k (process_updates us b) ≡ latest k us (route k b)
unfolding process_updates
route-process_updates k [] b h = refl
route-process_updates k (u ∷ us) b h =
    route-process_updates k us _ (peer_entry-All-HasPeer u us b h.1)
    ∙ ap (latest k us) (route-peer_entry k u b h.0.0 h.0.1)

-- Where the peers of all queued updates are in the neighbor table, processing the queue leaves the
-- last queued update of each key as its route, and the old route where none is queued.
pub route-proc_adj_rib_in_queue :
    (k : PrefixEntry) (b : Bgp)
    → All (HasPeer b.thread_q) b.adj_rib_in_q
    → route k (proc_adj_rib_in_queue b) ≡ latest k b.adj_rib_in_q (route k b)
unfolding proc_adj_rib_in_queue
route-proc_adj_rib_in_queue k b h = route-process_updates k b.adj_rib_in_q b h

-- The neighbors after a step still find the peers of these updates.
abbrev StillHas : List Update → Bgp → Result Bgp → Type 0
StillHas us b (ok c) = All (HasPeer c.thread_q) us
StillHas us b (fault e) = ⊥

through_peer-All-HasPeer :
    (i : ℕ) (f : Peer → Peer) (q : List Peer) (us : List Update)
    → ((r : Peer) → (f r).bgp_id ≡ r.bgp_id)
    → All (HasPeer q) us
    → All (HasPeer (through_peer i f q)) us
through_peer-All-HasPeer i f q [] keeps h = tt
through_peer-All-HasPeer i f q (u ∷ us) keeps h =
    (through_peer-HasPeer i f q u keeps h.0, through_peer-All-HasPeer i f q us keeps h.1)

remove_route_total :
    (u : Update) (o : Option Peer) (p : Peer) (us : List Update) (b : Bgp)
    → o ≡ some p
    → All (HasPeer b.thread_q) us
    → StillHas us b (remove_route u o b)
unfolding remove_route
remove_route_total u none p us b e h = ground arith
remove_route_total u (some q) p us b e h =
    through_peer-All-HasPeer u.nlri.bgp_id count_withdraw b.thread_q us (λ r. refl) h

withdraw_found_total :
    (u : Update) (o : Option Update) (us : List Update) (b : Bgp)
    → HasPeer b.thread_q u
    → All (HasPeer b.thread_q) us
    → StillHas us b (withdraw_found u o b)
unfolding withdraw_found
withdraw_found_total u none us b hu h = h
withdraw_found_total u (some old) us b hu h =
    let same = thread_q-dump NlriParse.withdraw old b in
    remove_route_total u _ hu.0 us (dump NlriParse.withdraw old b) hu.1
      (subst (λ q. All (HasPeer q) us) (sym same) h)

after_withdraw :
    (u : Update) (us : List Update) (b : Bgp) (m : Result Bgp)
    → withdraw u b ≡ m
    → StillHas us b m
    → ((d : Bgp) → All (HasPeer d.thread_q) us → (c : Bgp) × (process_withdrawals us d ≡ ok c))
    → (c : Bgp) × (process_withdrawals (u ∷ us) b ≡ ok c)
unfolding process_withdrawals
after_withdraw u us b (ok b') e s rest =
    let (c, e') =
      rest (record b' { adj_rib_in_wdraw_q = us; table_version = b'.table_version + 1 }) s in
    (c, rw (e, ◌>>=◌) e')
after_withdraw u us b (fault x) e s rest = absurd s

process_withdrawals_total :
    (us : List Update) (b : Bgp)
    → All (HasPeer b.thread_q) us
    → (c : Bgp) × (process_withdrawals us b ≡ ok c)
unfolding process_withdrawals withdraw
process_withdrawals_total [] b h = (record b { adj_rib_in_wdraw_q = [] }, refl)
process_withdrawals_total (u ∷ us) b h =
    after_withdraw u us b (withdraw u b) refl (withdraw_found_total u _ us b h.0 h.1)
      (λ b'. process_withdrawals_total us b')

-- The withdraw queue never meets a null pointer while the peer of every queued withdrawal is in the
-- neighbor table: processing it returns.
pub proc_adj_rib_wdraw_queue_total :
    (b : Bgp)
    → All (HasPeer b.thread_q) b.adj_rib_in_wdraw_q
    → (c : Bgp) × (proc_adj_rib_wdraw_queue b ≡ ok c)
unfolding proc_adj_rib_wdraw_queue
proc_adj_rib_wdraw_queue_total b h = process_withdrawals_total b.adj_rib_in_wdraw_q b h
