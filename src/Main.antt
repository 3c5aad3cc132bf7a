-- ===== src/Main.antt =====
-- src/bgp.cpp: a turn of the loop of init_BGP, after proc_queue_wait.
pub mod Quiet
pub mod Announce
use log2bgp.Base.{ℕ, List, [], ◌∷◌, Result, ok, ◌>>=◌}
use log2bgp.Peer.{Peer}
use log2bgp.Bgp.{Bgp}
use log2bgp.Rib.{proc_adj_rib_in_queue, proc_adj_rib_wdraw_queue}
use log2bgp.Session.Timer.{proc_in_q}

-- proc_in_q of each peer, in the order of the table.
unfoldable pub proc_peers : ℕ → List Peer → Bgp → Result (List Peer × Bgp)
unfolding proc_in_q
proc_peers now [] b = ok ([], b)
proc_peers now (p ∷ ps) b = do
  (q, b') ← proc_in_q now p b
  (qs, b'') ← proc_peers now ps b'
  ok (q ∷ qs, b'')

-- The two queues of the daemon.
unfoldable pub proc_queues : List Peer × Bgp → Result Bgp
unfolding proc_adj_rib_in_queue proc_adj_rib_wdraw_queue
proc_queues (ps, b) = proc_adj_rib_wdraw_queue (proc_adj_rib_in_queue (record b { thread_q = ps }))

unfoldable pub main_turn : ℕ → Bgp → Result Bgp
unfolding proc_peers proc_queues
main_turn now b = proc_peers now b.thread_q b >>= proc_queues
