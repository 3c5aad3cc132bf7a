-- ===== src/World/Table.antt =====
-- src/bgp.cpp: an update, a withdrawal and the flush of a peer, on a sound table.
use log2bgp.Base.{
  ◌∙◌, ℕ, suc, ◌≡◌, refl, sym, subst, ◌⊎◌, inl, inr, Option, none, some, List, [], ◌∷◌, All, ◌==◌,
  Bool-cases, Option-cases, arith,
}
use log2bgp.Msg.{Update, assign}
use log2bgp.Peer.{Peer}
use log2bgp.Bgp.{Bgp, NlriParse}
use log2bgp.OrderedMap.{insert, erase}
use log2bgp.OrderedMap.Laws.{SortedFrom, SortedFrom-mono, Each, insert-Each, erase-Each}
use log2bgp.Database.{PrefixEntry, prefix_entry}
use log2bgp.Threads.{through_peer}
use log2bgp.Rib.{
  Rib, rib_order, peer_entry, enter_if_peer, enter, withdraw, withdraw_found, remove_route,
  count_new, count_implicit, count_withdraw, dump, flush_peer,
}
use log2bgp.Rib.WellFormed.{insert-IsWellFormed, erase-IsWellFormed, OwnKey}
use log2bgp.Rib.Counters.{thread_q-dump, adj_rib_in-dump}
use log2bgp.World.Yields.{Yields}
use log2bgp.World.Peers.{PeerFits}
use log2bgp.World.Sound.{IsRouted, IsRouted-KeyFits, TableSound}

through_peer-PeerFits :
    (i : ℕ) (f : Peer → Peer) (q : List Peer)
    → ((p : Peer) → PeerFits p → PeerFits (f p))
    → All PeerFits q
    → All PeerFits (through_peer i f q)
unfolding through_peer
through_peer-PeerFits i f [] k h = tt
through_peer-PeerFits i f (p ∷ q) k (h, hs) = elim (Bool-cases (p.bgp_id == i)) [
  | inl e ↦ rw e (k p h, hs)
  | inr e ↦ rw e (h, through_peer-PeerFits i f q k hs)
]

assign-IsRouted : (u : Update) → IsRouted u → IsRouted (assign u)
unfolding assign
assign-IsRouted u w = record {
  flag = w.flag;
  now = w.now;
  bgp_id = w.bgp_id;
  prefix_length = w.prefix_length;
  prefix = w.prefix;
  made = w.made;
  positive = w.positive;
  short = w.short;
  prefix_fits = w.prefix_fits;
  id_fits = w.id_fits;
}

abbrev AllRouted : Rib → Type 0
AllRouted m = Each (λ k u. IsRouted u) m

-- A route entered, and the counters of a peer that only count.
insert-TableSound :
    (u : Update) (f : Peer → Peer) (q : List Peer) (m : Rib)
    → ((p : Peer) → PeerFits p → PeerFits (f p))
    → IsRouted u
    → TableSound q m
    → TableSound
        (through_peer u.nlri.bgp_id f q)
        (insert rib_order (prefix_entry u.nlri) (assign u) m)
insert-TableSound u f q m k r w = record {
  well_formed = insert-IsWellFormed u m (IsRouted-KeyFits u r) w.well_formed;
  routed =
      insert-Each rib_order (λ k u. IsRouted u) (prefix_entry u.nlri) (assign u) m
        (assign-IsRouted u r) (λ j v s e. assign-IsRouted u r) w.routed;
  peers = through_peer-PeerFits u.nlri.bgp_id f q k w.peers;
}

erase-TableSound :
    (i : ℕ) (k : PrefixEntry) (f : Peer → Peer) (q : List Peer) (m : Rib)
    → ((p : Peer) → PeerFits p → PeerFits (f p))
    → TableSound q m
    → TableSound (through_peer i f q) (erase rib_order k m)
erase-TableSound i k f q m h w = record {
  well_formed = erase-IsWellFormed k m w.well_formed;
  routed = erase-Each rib_order (λ k u. IsRouted u) k m w.routed;
  peers = through_peer-PeerFits i f q h w.peers;
}

abbrev BgpTable : Bgp → Type 0
BgpTable b = TableSound b.thread_q b.adj_rib_in

enter-TableSound :
    (u : Update) (o : Option Update) (b : Bgp) → IsRouted u → BgpTable b → BgpTable (enter u o b)
unfolding enter
enter-TableSound u none b r w =
    insert-TableSound u count_new b.thread_q b.adj_rib_in
      (λ p v. record { id = v.id; queue = v.queue; input = v.input }) r w
enter-TableSound u (some old) b r w =
    insert-TableSound u count_implicit b.thread_q b.adj_rib_in
      (λ p v. record { id = v.id; queue = v.queue; input = v.input }) r w

enter_if_peer-TableSound :
    (u : Update) (o : Option Peer) (b : Bgp)
    → IsRouted u
    → BgpTable b
    → BgpTable (enter_if_peer u o b)
unfolding enter_if_peer
enter_if_peer-TableSound u none b r w = w
enter_if_peer-TableSound u (some p) b r w = enter-TableSound u _ b r w

dump-TableSound : (flag : NlriParse) (u : Update) (b : Bgp) → BgpTable b → BgpTable (dump flag u b)
dump-TableSound flag u b w =
    subst (λ q. TableSound q (dump flag u b).adj_rib_in) (sym (thread_q-dump flag u b))
      (subst (TableSound b.thread_q) (sym (adj_rib_in-dump flag u b)) w)

pub peer_entry-TableSound :
    (u : Update) (b : Bgp) → IsRouted u → BgpTable b → BgpTable (peer_entry u b)
unfolding peer_entry
peer_entry-TableSound u b r w =
    enter_if_peer-TableSound u _ (dump NlriParse.update u b) r
      (dump-TableSound NlriParse.update u b w)

-- What a withdrawal leaves: a sound table, and the queues as they were.
abbrev pub Withdrawn : Bgp → Bgp → Type 0
Withdrawn b c =
    BgpTable c × (c.adj_rib_in_q ≡ b.adj_rib_in_q) × (c.adj_rib_in_wdraw_q ≡ b.adj_rib_in_wdraw_q)

remove_route-Withdrawn :
    (u : Update) (o : Option Peer) (a b : Bgp)
    → b.adj_rib_in_q ≡ a.adj_rib_in_q
    → b.adj_rib_in_wdraw_q ≡ a.adj_rib_in_wdraw_q
    → BgpTable b
    → Yields (Withdrawn a) (remove_route u o b)
unfolding remove_route
remove_route-Withdrawn u none a b e f w = tt
remove_route-Withdrawn u (some p) a b e f w = (
  erase-TableSound u.nlri.bgp_id (prefix_entry u.nlri) count_withdraw b.thread_q b.adj_rib_in
      (λ p v. record { id = v.id; queue = v.queue; input = v.input }) w,
  e,
  f,
)

dump-updates :
    (flag : NlriParse) (u : Update) (b : Bgp) → (dump flag u b).adj_rib_in_q ≡ b.adj_rib_in_q
unfolding dump
dump-updates flag u b = ground arith

dump-withdrawals :
    (flag : NlriParse) (u : Update) (b : Bgp)
    → (dump flag u b).adj_rib_in_wdraw_q ≡ b.adj_rib_in_wdraw_q
unfolding dump
dump-withdrawals flag u b = ground arith

withdraw_found-Withdrawn :
    (u : Update) (o : Option Update) (b : Bgp)
    → BgpTable b
    → Yields (Withdrawn b) (withdraw_found u o b)
unfolding withdraw_found
withdraw_found-Withdrawn u none b w = (w, refl, refl)
withdraw_found-Withdrawn u (some old) b w =
    remove_route-Withdrawn u _ b (dump NlriParse.withdraw old b)
      (dump-updates NlriParse.withdraw old b) (dump-withdrawals NlriParse.withdraw old b)
      (dump-TableSound NlriParse.withdraw old b w)

pub withdraw-Withdrawn : (u : Update) (b : Bgp) → BgpTable b → Yields (Withdrawn b) (withdraw u b)
unfolding withdraw
withdraw-Withdrawn u b w = withdraw_found-Withdrawn u _ b w

enter-updates :
    (u : Update) (o : Option Update) (b : Bgp) → (enter u o b).adj_rib_in_q ≡ b.adj_rib_in_q
unfolding enter
enter-updates u none b = refl
enter-updates u (some old) b = refl

enter_if_peer-updates :
    (u : Update) (o : Option Peer) (b : Bgp) → (enter_if_peer u o b).adj_rib_in_q ≡ b.adj_rib_in_q
unfolding enter_if_peer
enter_if_peer-updates u none b = refl
enter_if_peer-updates u (some p) b = enter-updates u _ b

pub peer_entry-updates : (u : Update) (b : Bgp) → (peer_entry u b).adj_rib_in_q ≡ b.adj_rib_in_q
unfolding peer_entry
peer_entry-updates u b =
    enter_if_peer-updates u _ (dump NlriParse.update u b) ∙ dump-updates NlriParse.update u b

-- Flushing leaves out one route.
flush_peer-cases :
    (i : ℕ) (k : PrefixEntry) (u : Update) (m m' : Rib)
    → flush_peer i ((k, u) ∷ m) ≡ some m'
    → (m' ≡ m) ⊎ ((m'' : Rib) × (flush_peer i m ≡ some m'') × (m' ≡ (k, u) ∷ m''))
unfolding flush_peer
flush_peer-cases i k u m m' h = elim (Bool-cases (u.nlri.bgp_id == i)) [
  | inl mine ↦ inl (ground arith)
  | inr other ↦ elim (Option-cases (flush_peer i m)) [
    | inl e ↦ absurd (ground arith)
    | inr (m'', e) ↦ inr (m'', e, ground arith)
  ]
]

flush_peer-SortedFrom :
    (i n : ℕ) (m m' : Rib)
    → flush_peer i m ≡ some m'
    → SortedFrom rib_order n m
    → SortedFrom rib_order n m'
unfolding flush_peer
flush_peer-SortedFrom i n [] m' h s = cc
flush_peer-SortedFrom i n ((k, u) ∷ m) m' h s = elim (flush_peer-cases i k u m m' h) [
  | inl e ↦
      subst (SortedFrom rib_order n) (sym e)
        (SortedFrom-mono rib_order n (suc (rib_order.rank k)) m (omega (arith, s.0)) s.1)
  | inr (m'', e, f) ↦
      subst (SortedFrom rib_order n) (sym f)
        (s.0, flush_peer-SortedFrom i (suc (rib_order.rank k)) m m'' e s.1)
]

flush_peer-Each :
    (R : PrefixEntry → Update → Type 0) (i : ℕ) (m m' : Rib)
    → flush_peer i m ≡ some m'
    → Each R m
    → Each R m'
unfolding flush_peer
flush_peer-Each R i [] m' h s = cc
flush_peer-Each R i ((k, u) ∷ m) m' h s = elim (flush_peer-cases i k u m m' h) [
  | inl e ↦ subst (Each R) (sym e) s.1
  | inr (m'', e, f) ↦ subst (Each R) (sym f) (s.0, flush_peer-Each R i m m'' e s.1)
]

pub flush_peer-TableSound :
    (i : ℕ) (q : List Peer) (m m' : Rib)
    → flush_peer i m ≡ some m'
    → TableSound q m
    → TableSound q m'
flush_peer-TableSound i q m m' e w = record {
  well_formed = record {
    sorted = flush_peer-SortedFrom i 0 m m' e w.well_formed.sorted;
    keys = flush_peer-Each OwnKey i m m' e w.well_formed.keys;
  };
  routed = flush_peer-Each (λ k u. IsRouted u) i m m' e w.routed;
  peers = w.peers;
}
