-- ===== src/Rib/Counters.antt =====
-- src/bgp.cpp: the counter of a peer's current prefixes is the number of its routes in the RIB.
use log2bgp.Base.{
  ℕ, ◌+◌, ◌%◌, ◌^◌, ◌≡◌, refl, ap, sym, subst, ◌∙◌, Bool, false, Option, none, some, List, inl, inr,
  arith, ok, ◌==◌, if◌then◌else◌, Bool-cases, ==→eq, ok_inj,
}
use log2bgp.Msg.{Update, assign}
use log2bgp.Peer.{Peer}
use log2bgp.OrderedMap.{insert, erase, find}
use log2bgp.OrderedMap.Laws.{count, count-insert_new, count-insert_old, count-erase, find-Each}
use log2bgp.Database.{PrefixEntry, prefix_entry}
use log2bgp.Bgp.{Bgp, NlriParse}
use log2bgp.Threads.{
  get_peer_by_bgp_id, through_peer, get_peer-through_peer_self, get_peer-through_peer_ne,
  get_peer-bgp_id,
}
use log2bgp.Rib.WellFormed.{
  KeyFits, OwnKey, IsWellFormed, insert-IsWellFormed, erase-IsWellFormed, same_key,
}
use log2bgp.Rib.{
  Rib, rib_order, rib_rank, peer_entry, enter_if_peer, enter, withdraw, withdraw_found,
  remove_route, count_new, count_implicit, count_withdraw, dump,
}

abbrev pub of_peer : ℕ → Update → Bool
of_peer i u = u.nlri.bgp_id == i

-- The number of routes of the peer with this BGP id.
abbrev pub routes : ℕ → Rib → ℕ
routes i m = count rib_order (of_peer i) m

-- The peer that an id finds counts its routes, as an unsigned int.
abbrev pub CountsRoutes : List Peer → Rib → Type 0
CountsRoutes q m =
    (i : ℕ) (p : Peer)
    → get_peer_by_bgp_id i q ≡ some p
    → p.prefixes.current.rx ≡ routes i m % 2 ^ 32

pub record RibInv (b : Bgp) : Type 0 where
  pub well_formed : IsWellFormed b.adj_rib_in
  pub counted : CountsRoutes b.thread_q b.adj_rib_in

counted_step :
    (i : ℕ) (f : Peer → Peer) (q : List Peer) (m m' : Rib) (p : Peer)
    → ((r : Peer) → (f r).bgp_id ≡ r.bgp_id)
    → get_peer_by_bgp_id i q ≡ some p
    → CountsRoutes q m
    → (f p).prefixes.current.rx ≡ routes i m' % 2 ^ 32
    → ((j : ℕ) → (i == j) ≡ false → routes j m' ≡ routes j m)
    → CountsRoutes (through_peer i f q) m'
counted_step i f q m m' p keeps at counted here there j r e = elim (Bool-cases (i == j)) [
  | inl same ↦
      let at_j = ==→eq i j same in
      let found = get_peer-through_peer_self i f q p at (keeps p ∙ get_peer-bgp_id i q p at) in
      let same_peer : f p ≡ r = cc in cc
  | inr other ↦
      rw (there j other) (counted j r (sym (get_peer-through_peer_ne i j f q keeps other) ∙ e))
]

-- A route under the key of `u` is of the same peer.
old_of_peer :
    (u old : Update) (m : Rib)
    → KeyFits u
    → IsWellFormed m
    → find rib_order (prefix_entry u.nlri) m ≡ some old
    → old.nlri.bgp_id ≡ u.nlri.bgp_id
unfolding rib_order
old_of_peer u old m h w e =
    let (k, own, same) = find-Each rib_order OwnKey (prefix_entry u.nlri) old m w.keys e in
    ap (λ (t : PrefixEntry). t.1) (same_key u old h own.1 (ap rib_rank (sym own.0) ∙ same))

module _ (j : ℕ) (u : Update) (m : Rib) where
  routes-insert_new :
      find rib_order (prefix_entry u.nlri) m ≡ none
      → routes j (insert rib_order (prefix_entry u.nlri) (assign u) m)
        ≡ (if u.nlri.bgp_id == j then 1 else 0) + routes j m
  unfolding assign
  routes-insert_new = count-insert_new rib_order (of_peer j) (prefix_entry u.nlri) (assign u) m

  module _ (old : Update) (h : KeyFits u) (w : IsWellFormed m)
      (e : find rib_order (prefix_entry u.nlri) m ≡ some old) where
    routes-insert_old : routes j (insert rib_order (prefix_entry u.nlri) (assign u) m) ≡ routes j m
    unfolding assign
    routes-insert_old = ground (
      arith,
      count-insert_old rib_order (of_peer j) (prefix_entry u.nlri) (assign u) old m e,
      old_of_peer u old m h w e,
    )

    routes-erase :
        routes j (erase rib_order (prefix_entry u.nlri) m) + (if u.nlri.bgp_id == j then 1 else 0)
        ≡ routes j m
    routes-erase = ground (
      arith,
      count-erase rib_order (of_peer j) (prefix_entry u.nlri) old m e,
      old_of_peer u old m h w e,
    )

enter-RibInv :
    (u : Update) (o : Option Update) (b : Bgp) (p : Peer)
    → KeyFits u
    → RibInv b
    → get_peer_by_bgp_id u.nlri.bgp_id b.thread_q ≡ some p
    → find rib_order (prefix_entry u.nlri) b.adj_rib_in ≡ o
    → RibInv (enter u o b)
unfolding enter
enter-RibInv u none b p h w at e = record {
  well_formed = insert-IsWellFormed u b.adj_rib_in h w.well_formed;
  counted =
      counted_step u.nlri.bgp_id count_new b.thread_q b.adj_rib_in _ p (λ r. refl) at w.counted
        (ground (arith, routes-insert_new u.nlri.bgp_id u b.adj_rib_in e, w.counted _ p at))
        (λ j other. ground (arith, routes-insert_new j u b.adj_rib_in e));
}
enter-RibInv u (some old) b p h w at e = record {
  well_formed = insert-IsWellFormed u b.adj_rib_in h w.well_formed;
  counted =
      counted_step u.nlri.bgp_id count_implicit b.thread_q b.adj_rib_in _ p (λ r. refl) at w.counted
        (w.counted _ p at
          ∙ ap (λ (n : ℕ). n % 2 ^ 32)
              (sym (routes-insert_old _ u b.adj_rib_in old h w.well_formed e)))
        (λ j other. routes-insert_old j u b.adj_rib_in old h w.well_formed e);
}

-- Logging changes nothing else.
pub thread_q-dump :
    (flag : NlriParse) (u : Update) (b : Bgp) → (dump flag u b).thread_q ≡ b.thread_q
unfolding dump
thread_q-dump flag u b = ground arith

pub adj_rib_in-dump :
    (flag : NlriParse) (u : Update) (b : Bgp) → (dump flag u b).adj_rib_in ≡ b.adj_rib_in
unfolding dump
adj_rib_in-dump flag u b = ground arith

pub dump-RibInv : (flag : NlriParse) (u : Update) (b : Bgp) → RibInv b → RibInv (dump flag u b)
unfolding dump
dump-RibInv flag u b w = elim (Bool-cases b.dumper_on_off) [
  | inl on ↦ rw on (record { well_formed = w.well_formed; counted = w.counted })
  | inr off ↦ simp off w
]

enter_if_peer-RibInv :
    (u : Update) (o : Option Peer) (b : Bgp)
    → KeyFits u
    → RibInv b
    → get_peer_by_bgp_id u.nlri.bgp_id b.thread_q ≡ o
    → RibInv (enter_if_peer u o b)
unfolding enter_if_peer
enter_if_peer-RibInv u none b h w at = w
enter_if_peer-RibInv u (some p) b h w at = enter-RibInv u _ b p h w at refl

-- An update keeps the RIB sorted with each route under its own key, and the counter of every peer
-- at the number of its routes.
pub peer_entry-RibInv : (u : Update) (b : Bgp) → KeyFits u → RibInv b → RibInv (peer_entry u b)
unfolding peer_entry
peer_entry-RibInv u b h w =
    enter_if_peer-RibInv u _ (dump NlriParse.update u b) h (dump-RibInv NlriParse.update u b w) refl

remove_route-RibInv :
    (u old : Update) (o : Option Peer) (b c : Bgp)
    → KeyFits u
    → RibInv b
    → get_peer_by_bgp_id u.nlri.bgp_id b.thread_q ≡ o
    → find rib_order (prefix_entry u.nlri) b.adj_rib_in ≡ some old
    → remove_route u o b ≡ ok c
    → RibInv c
unfolding remove_route
remove_route-RibInv u old none b c h w at e r = absurd (ground arith)
remove_route-RibInv u old (some p) b c h w at e r = subst RibInv (ok_inj r) (record {
  well_formed = erase-IsWellFormed (prefix_entry u.nlri) b.adj_rib_in w.well_formed;
  counted =
      counted_step u.nlri.bgp_id count_withdraw b.thread_q b.adj_rib_in _ p (λ r. refl) at w.counted
        (ground (
          arith,
          routes-erase u.nlri.bgp_id u b.adj_rib_in old h w.well_formed e,
          w.counted _ p at,
        ))
        (λ j other. ground (arith, routes-erase j u b.adj_rib_in old h w.well_formed e));
})

withdraw_found-RibInv :
    (u : Update) (o : Option Update) (b c : Bgp)
    → KeyFits u
    → RibInv b
    → find rib_order (prefix_entry u.nlri) b.adj_rib_in ≡ o
    → withdraw_found u o b ≡ ok c
    → RibInv c
unfolding withdraw_found
withdraw_found-RibInv u none b c h w e r = subst RibInv (ok_inj r) w
withdraw_found-RibInv u (some old) b c h w e r =
    remove_route-RibInv u old _ (dump NlriParse.withdraw old b) c h
      (dump-RibInv NlriParse.withdraw old b w)
      (ap (get_peer_by_bgp_id u.nlri.bgp_id) (thread_q-dump _ old b))
      (ap (find rib_order (prefix_entry u.nlri)) (adj_rib_in-dump _ old b) ∙ e) r

-- So does a withdrawal that does not fault.
pub withdraw-RibInv :
    (u : Update) (b c : Bgp) → KeyFits u → RibInv b → withdraw u b ≡ ok c → RibInv c
unfolding withdraw
withdraw-RibInv u b c h w r = withdraw_found-RibInv u _ b c h w refl r
