-- ===== src/Rib/Queues.antt =====
-- src/bgp.cpp: what processing the two queues makes of the table.
use log2bgp.Base.{
  ◌+◌, ◌≡◌, refl, ap, subst, ◌∙◌, Bool, Option, none, some, List, [], ◌∷◌, All, arith, ok,
  >>=-cases, ok_inj, ◌==◌, if◌then◌else◌,
}
use log2bgp.Msg.{Update, assign}
use log2bgp.Peer.{Peer}
use log2bgp.OrderedMap.{find}
use log2bgp.OrderedMap.Laws.{find-insert, find-erase, find_same_rank}
use log2bgp.Database.{PrefixEntry, prefix_entry}
use log2bgp.Bgp.{Bgp, NlriParse}
use log2bgp.Threads.{get_peer_by_bgp_id}
use log2bgp.Rib.WellFormed.{KeyFits}
use log2bgp.Rib.Counters.{
  RibInv, peer_entry-RibInv, withdraw-RibInv, dump-RibInv, thread_q-dump, adj_rib_in-dump,
}
use log2bgp.Rib.{
  rib_order, rib_rank, peer_entry, enter_if_peer, enter, withdraw, withdraw_found, remove_route,
  dump, process_updates, process_withdrawals, proc_adj_rib_in_queue, proc_adj_rib_wdraw_queue,
}

-- The route that the table has under a key.
abbrev pub route : PrefixEntry → Bgp → Option Update
route k b = find rib_order k b.adj_rib_in

abbrev pub same_place : PrefixEntry → PrefixEntry → Bool
same_place j k = rib_rank j == rib_rank k

route-enter :
    (k : PrefixEntry) (u : Update) (o : Option Update) (b : Bgp)
    → route k (enter u o b)
      ≡ (if same_place (prefix_entry u.nlri) k then some (assign u) else route k b)
unfolding enter rib_order
route-enter k u none b = find-insert rib_order (prefix_entry u.nlri) k (assign u) b.adj_rib_in
route-enter k u (some old) b = find-insert rib_order (prefix_entry u.nlri) k (assign u) b.adj_rib_in

route-enter_if_peer :
    (k : PrefixEntry) (u : Update) (o : Option Peer) (p : Peer) (b : Bgp)
    → o ≡ some p
    → route k (enter_if_peer u o b)
      ≡ (if same_place (prefix_entry u.nlri) k then some (assign u) else route k b)
unfolding enter_if_peer
route-enter_if_peer k u none p b e = absurd (ground arith)
route-enter_if_peer k u (some q) p b e = route-enter k u _ b

-- An update of a known peer is the route of its key, and every other key keeps its route.
pub route-peer_entry :
    (k : PrefixEntry) (u : Update) (b : Bgp) (p : Peer)
    → get_peer_by_bgp_id u.nlri.bgp_id b.thread_q ≡ some p
    → route k (peer_entry u b)
      ≡ (if same_place (prefix_entry u.nlri) k then some (assign u) else route k b)
unfolding peer_entry
route-peer_entry k u b p e =
    route-enter_if_peer k u _ p (dump NlriParse.update u b)
      (ap (get_peer_by_bgp_id u.nlri.bgp_id) (thread_q-dump _ u b) ∙ e)
    ∙ rw (adj_rib_in-dump NlriParse.update u b)

route-remove_route :
    (k : PrefixEntry) (u : Update) (o : Option Peer) (b c : Bgp)
    → RibInv b
    → remove_route u o b ≡ ok c
    → route k c ≡ (if same_place (prefix_entry u.nlri) k then none else route k b)
unfolding remove_route rib_order
route-remove_route k u none b c w r = absurd (ground arith)
route-remove_route k u (some p) b c w r =
    subst (λ d. route k d ≡ (if same_place (prefix_entry u.nlri) k then none else route k b))
      (ok_inj r) (find-erase rib_order (prefix_entry u.nlri) k 0 b.adj_rib_in w.well_formed.sorted)

route-withdraw_found :
    (k : PrefixEntry) (u : Update) (o : Option Update) (b c : Bgp)
    → RibInv b
    → route (prefix_entry u.nlri) b ≡ o
    → withdraw_found u o b ≡ ok c
    → route k c ≡ (if same_place (prefix_entry u.nlri) k then none else route k b)
unfolding withdraw_found rib_order
route-withdraw_found k u none b c w e r =
    ground (arith, ok_inj r, e, find_same_rank rib_order (prefix_entry u.nlri) k b.adj_rib_in)
route-withdraw_found k u (some old) b c w e r = rw (adj_rib_in-dump NlriParse.withdraw old b) at (
    route-remove_route k u _ (dump NlriParse.withdraw old b) c
      (dump-RibInv NlriParse.withdraw old b w) r)

-- From a sound table, a withdrawal that does not fault takes the route of its key away, and keeps
-- every other.
pub route-withdraw :
    (k : PrefixEntry) (u : Update) (b c : Bgp)
    → RibInv b
    → withdraw u b ≡ ok c
    → route k c ≡ (if same_place (prefix_entry u.nlri) k then none else route k b)
unfolding withdraw
route-withdraw k u b c w r = route-withdraw_found k u _ b c w refl r

process_updates-RibInv :
    (us : List Update) (b : Bgp) → All KeyFits us → RibInv b → RibInv (process_updates us b)
unfolding process_updates
process_updates-RibInv [] b h w = record { well_formed = w.well_formed; counted = w.counted }
process_updates-RibInv (u ∷ us) b h w =
    let v = peer_entry-RibInv u b h.0 w in
    process_updates-RibInv us _ h.1 (record { well_formed = v.well_formed; counted = v.counted })

process_withdrawals-RibInv :
    (us : List Update) (b c : Bgp)
    → All KeyFits us
    → RibInv b
    → process_withdrawals us b ≡ ok c
    → RibInv c
unfolding process_withdrawals
process_withdrawals-RibInv [] b c h w r =
    subst RibInv (ok_inj r) (record { well_formed = w.well_formed; counted = w.counted })
process_withdrawals-RibInv (u ∷ us) b c h w r =
    let (b', e, r') = >>=-cases (withdraw u b) _ r in
    let v = withdraw-RibInv u b b' h.0 w e in
    process_withdrawals-RibInv us _ c h.1
      (record { well_formed = v.well_formed; counted = v.counted }) r'

enter-wdraw_q :
    (u : Update) (o : Option Update) (b : Bgp)
    → (enter u o b).adj_rib_in_wdraw_q ≡ b.adj_rib_in_wdraw_q
unfolding enter
enter-wdraw_q u none b = refl
enter-wdraw_q u (some old) b = refl

enter_if_peer-wdraw_q :
    (u : Update) (o : Option Peer) (b : Bgp)
    → (enter_if_peer u o b).adj_rib_in_wdraw_q ≡ b.adj_rib_in_wdraw_q
unfolding enter_if_peer
enter_if_peer-wdraw_q u none b = refl
enter_if_peer-wdraw_q u (some p) b = enter-wdraw_q u _ b

dump-wdraw_q :
    (flag : NlriParse) (u : Update) (b : Bgp)
    → (dump flag u b).adj_rib_in_wdraw_q ≡ b.adj_rib_in_wdraw_q
unfolding dump
dump-wdraw_q flag u b = ground arith

pub peer_entry-wdraw_q :
    (u : Update) (b : Bgp) → (peer_entry u b).adj_rib_in_wdraw_q ≡ b.adj_rib_in_wdraw_q
unfolding peer_entry
peer_entry-wdraw_q u b =
    enter_if_peer-wdraw_q u _ (dump NlriParse.update u b) ∙ dump-wdraw_q NlriParse.update u b

pub process_updates-wdraw_q :
    (us : List Update) (b : Bgp) → (process_updates us b).adj_rib_in_wdraw_q ≡ b.adj_rib_in_wdraw_q
unfolding process_updates
process_updates-wdraw_q [] b = refl
process_updates-wdraw_q (u ∷ us) b = process_updates-wdraw_q us _ ∙ peer_entry-wdraw_q u b

-- Both queues keep the RIB sorted with each route under its own key, and the counter of every peer
-- at the number of its routes, if every queued key is a pair of uint32_t and no withdrawal faults.
pub cycle-RibInv :
    (b c : Bgp)
    → RibInv b
    → All KeyFits b.adj_rib_in_q
    → All KeyFits b.adj_rib_in_wdraw_q
    → proc_adj_rib_wdraw_queue (proc_adj_rib_in_queue b) ≡ ok c
    → RibInv c
unfolding proc_adj_rib_in_queue proc_adj_rib_wdraw_queue
cycle-RibInv b c w hu hw r =
    process_withdrawals-RibInv b.adj_rib_in_wdraw_q _ c hw
      (process_updates-RibInv b.adj_rib_in_q b hu w)
      (rw (process_updates-wdraw_q b.adj_rib_in_q b) at r)

-- No withdrawal brings a route back.
absent_stays :
    (k : PrefixEntry) (us : List Update) (b c : Bgp)
    → All KeyFits us
    → RibInv b
    → route k b ≡ none
    → process_withdrawals us b ≡ ok c
    → route k c ≡ none
unfolding process_withdrawals
absent_stays k [] b c h w n r = subst (λ d. route k d ≡ none) (ok_inj r) n
absent_stays k (u ∷ us) b c h w n r =
    let (b', e, r') = >>=-cases (withdraw u b) _ r in
    let v = withdraw-RibInv u b b' h.0 w e in
    let n' : route k b' ≡ none = ground (arith, route-withdraw k u b b' w e) in
    absent_stays k us _ c h.1 (record { well_formed = v.well_formed; counted = v.counted }) n' r'

process_withdrawals_absent :
    (us : List Update) (b c : Bgp)
    → All KeyFits us
    → RibInv b
    → process_withdrawals us b ≡ ok c
    → All (λ u. route (prefix_entry u.nlri) c ≡ none) us
unfolding process_withdrawals
process_withdrawals_absent [] b c h w r = tt
process_withdrawals_absent (u ∷ us) b c h w r =
    let (b', e, r') = >>=-cases (withdraw u b) _ r in
    let v = withdraw-RibInv u b b' h.0 w e in
    let next : RibInv
        (record b' { adj_rib_in_wdraw_q = us; table_version = b'.table_version + 1 }) =
      record { well_formed = v.well_formed; counted = v.counted } in
    let gone : route (prefix_entry u.nlri) b' ≡ none =
      ground (arith, route-withdraw (prefix_entry u.nlri) u b b' w e) in
    (
      absent_stays (prefix_entry u.nlri) us _ c h.1 next gone r',
      process_withdrawals_absent us _ c h.1 next r',
    )

-- After a cycle without a fault, from a sound table and with queued keys of uint32_t, no key of the
-- withdraw queue has a route, whatever was announced for it and whenever.
pub cycle_withdrawals_win :
    (b c : Bgp)
    → RibInv b
    → All KeyFits b.adj_rib_in_q
    → All KeyFits b.adj_rib_in_wdraw_q
    → proc_adj_rib_wdraw_queue (proc_adj_rib_in_queue b) ≡ ok c
    → All (λ u. route (prefix_entry u.nlri) c ≡ none) b.adj_rib_in_wdraw_q
unfolding proc_adj_rib_in_queue proc_adj_rib_wdraw_queue
cycle_withdrawals_win b c w hu hw r =
    process_withdrawals_absent b.adj_rib_in_wdraw_q _ c hw
      (process_updates-RibInv b.adj_rib_in_q b hu w)
      (rw (process_updates-wdraw_q b.adj_rib_in_q b) at r)
