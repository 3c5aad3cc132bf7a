-- ===== src/Tests/Tables.antt =====
-- Runs of the table of src/bgp.cpp.
use log2bgp.Base.{◌≡◌, refl, none, [], ◌∷◌, ◌%◌, ◌^◌, if◌then◌else◌, Result, ok, fault, All, arith}
use log2bgp.Bgp.{Bgp}
use log2bgp.Database.{prefix_entry}
use log2bgp.Threads.{get_peer_by_bgp_id, through_peer}
use log2bgp.OrderedMap.{find, insert}
use log2bgp.OrderedMap.Laws.{count}
use log2bgp.Rib.{
  rib_order, rib_sort, memcmp_lt, memcmp_eq, peer_entry, withdraw, proc_adj_rib_in_queue,
  proc_adj_rib_wdraw_queue, flush_peer_loop,
}
use log2bgp.Rib.Counters.{RibInv, CountsRoutes}
use log2bgp.Rib.Queues.{route, same_place, route-withdraw, cycle-RibInv, cycle_withdrawals_win}
use log2bgp.Rib.Flush.{without_peer, flush_peer_loop_lem}
use log2bgp.Rib.Latest.{latest, route-proc_adj_rib_in_queue, proc_adj_rib_wdraw_queue_total}
use log2bgp.Tests.Data.{daemon, neighbor, one_update}

-- The route of the neighbor is withdrawn and announced again before the queues are processed.
abbrev waiting : Bgp
waiting = record daemon { adj_rib_in_q = one_update ∷ []; adj_rib_in_wdraw_q = one_update ∷ [] }

abbrev value_of : Result Bgp → Bgp
value_of (ok b) = b
value_of (fault e) = daemon

-- What a cycle makes of it.
abbrev cycled : Bgp
cycled = value_of (proc_adj_rib_wdraw_queue (proc_adj_rib_in_queue waiting))

daemon-CountsRoutes : CountsRoutes (neighbor ∷ []) []
unfolding get_peer_by_bgp_id
daemon-CountsRoutes i p h = unfold count in ground arith

waiting-RibInv : RibInv waiting
waiting-RibInv = record {
  well_formed = record { sorted = tt; keys = tt };
  counted = daemon-CountsRoutes;
}

cycled-ok : proc_adj_rib_wdraw_queue (proc_adj_rib_in_queue waiting) ≡ ok cycled
unfolding proc_adj_rib_wdraw_queue proc_adj_rib_in_queue peer_entry get_peer_by_bgp_id find withdraw
    insert rib_order rib_sort memcmp_lt memcmp_eq through_peer
cycled-ok = refl

cycle-RibInv_example : RibInv cycled
cycle-RibInv_example =
    cycle-RibInv waiting cycled waiting-RibInv ((omega arith, omega arith), tt)
      ((omega arith, omega arith), tt) cycled-ok

cycle_withdrawals_win_example :
    All (λ u. route (prefix_entry u.nlri) cycled ≡ none) (one_update ∷ [])
cycle_withdrawals_win_example =
    cycle_withdrawals_win waiting cycled waiting-RibInv ((omega arith, omega arith), tt)
      ((omega arith, omega arith), tt) cycled-ok

route-proc_adj_rib_in_queue_example :
    route (prefix_entry one_update.nlri) (proc_adj_rib_in_queue waiting)
    ≡ latest
        (prefix_entry one_update.nlri)
        (one_update ∷ [])
        (route (prefix_entry one_update.nlri) waiting)
unfolding get_peer_by_bgp_id
route-proc_adj_rib_in_queue_example =
    route-proc_adj_rib_in_queue (prefix_entry one_update.nlri) waiting ((neighbor, refl), tt)

proc_adj_rib_wdraw_queue_total_example : (c : Bgp) × (proc_adj_rib_wdraw_queue waiting ≡ ok c)
unfolding get_peer_by_bgp_id
proc_adj_rib_wdraw_queue_total_example =
    proc_adj_rib_wdraw_queue_total waiting ((neighbor, refl), tt)

-- The table once the update is entered.
abbrev one_route : Bgp
one_route = record daemon {
  adj_rib_in = (prefix_entry one_update.nlri, one_update) ∷ [];
  thread_q =
      record neighbor {
        prefixes = record neighbor.prefixes {
          current = record neighbor.prefixes.current { rx = 1 };
        };
      }
      ∷ [];
}

abbrev withdrawn : Bgp
withdrawn = value_of (withdraw one_update one_route)

withdrawn-ok : withdraw one_update one_route ≡ ok withdrawn
unfolding withdraw find rib_order rib_sort memcmp_lt memcmp_eq get_peer_by_bgp_id
withdrawn-ok = refl

one_route-CountsRoutes : CountsRoutes one_route.thread_q one_route.adj_rib_in
unfolding get_peer_by_bgp_id
one_route-CountsRoutes i p h = unfold count in ground arith

one_route-RibInv : RibInv one_route
one_route-RibInv = record {
  well_formed = record {
    sorted = (omega arith, tt);
    keys = ((refl, (omega arith, omega arith)), tt);
  };
  counted = one_route-CountsRoutes;
}

route-withdraw_example : route (prefix_entry one_update.nlri) withdrawn ≡ (
    if same_place (prefix_entry one_update.nlri) (prefix_entry one_update.nlri)
    then none
    else route (prefix_entry one_update.nlri) one_route)
route-withdraw_example =
    route-withdraw (prefix_entry one_update.nlri) one_update one_route withdrawn one_route-RibInv
      withdrawn-ok

flush_peer_loop_example :
    (((flush_peer_loop 1 7 one_route.adj_rib_in 1).0) ≡ without_peer 7 one_route.adj_rib_in)
    × (((flush_peer_loop 1 7 one_route.adj_rib_in 1).1) ≡ 0 % 2 ^ 32)
unfolding count
flush_peer_loop_example = flush_peer_loop_lem 1 7 0 one_route.adj_rib_in 1 (omega arith) refl
