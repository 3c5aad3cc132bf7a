-- ===== src/World/Places.antt =====
-- src/bgp.cpp: the steps of the main thread and the end of a session, on a sound daemon.
use log2bgp.Base.Words.{dec16}
use log2bgp.Base.{ℕ, some, ◌+◌, ◌≡◌, sym, subst, List, [], ◌∷◌, ◌++◌, All, ok}
use log2bgp.Msg.{Update}
use log2bgp.Peer.{Peer, QueueData}
use log2bgp.Bgp.{Bgp}
use log2bgp.Rib.{Rib, peer_entry, withdraw, flush_peer}
use log2bgp.Rib.Queues.{peer_entry-wdraw_q}
use log2bgp.Tcp.{disconnect}
use log2bgp.World.Yields.{Yields-ok}
use log2bgp.World.Peers.{PacketFits, PeerFits, input_of}
use log2bgp.World.Sound.{IsRouted, Sound}
use log2bgp.World.Table.{
  flush_peer-TableSound, peer_entry-updates, peer_entry-TableSound, Withdrawn, withdraw-Withdrawn,
}
use log2bgp.World.{Place, with_peer_at}

module _ {ℓ} {A : Type ℓ} (P : A → Type 0) where
  -- The element at a place, and another in its place.
  All-at : (xs : List A) (x : A) (ys : List A) → All P (xs ++ x ∷ ys) → P x
  All-at [] x ys h = h.0
  All-at (z ∷ xs) x ys h = All-at xs x ys h.1

  All-replaced :
      (xs : List A) (x y : A) (ys : List A) → All P (xs ++ x ∷ ys) → P y → All P (xs ++ y ∷ ys)
  All-replaced [] x y ys h k = (k, h.1)
  All-replaced (z ∷ xs) x y ys h k = (h.0, All-replaced xs x y ys h.1 k)

-- The peer at a place fits, and the table with another that fits is sound.
pub place-PeerFits : (b : Bgp) (l : Place b) → Sound b → PeerFits l.peer
place-PeerFits b l w =
    All-at PeerFits l.before l.peer l.behind (subst (All PeerFits) (l.found) w.table.peers)

pub with_peer_at-Sound :
    (b d : Bgp) (l : Place b) (q : Peer)
    → Sound b
    → PeerFits q
    → Sound d
    → Sound (with_peer_at l q d)
with_peer_at-Sound b d l q w v s = record {
  table = record {
    well_formed = s.table.well_formed;
    routed = s.table.routed;
    peers =
        All-replaced PeerFits l.before l.peer q l.behind
          (subst (All PeerFits) (l.found) w.table.peers) v;
  };
  updates = s.updates;
  withdrawals = s.withdrawals;
}

pub enters-Sound :
    (b : Bgp) (u : Update) (us : List Update)
    → b.adj_rib_in_q ≡ u ∷ us
    → Sound b
    → Sound (peer_entry u b)
enters-Sound b u us e w =
    let queued = subst (All IsRouted) e w.updates in
    record {
      table = peer_entry-TableSound u b (queued.0) w.table;
      updates = subst (All IsRouted) (sym (peer_entry-updates u b)) w.updates;
      withdrawals = subst (All IsRouted) (sym (peer_entry-wdraw_q u b)) w.withdrawals;
    }

pub entered-Sound :
    (b : Bgp) (u : Update) (us : List Update)
    → b.adj_rib_in_q ≡ u ∷ us
    → Sound b
    → Sound (record b { adj_rib_in_q = us; table_version = b.table_version + 1 })
entered-Sound b u us e w = record {
  table = w.table;
  updates = (subst (All IsRouted) e w.updates).1;
  withdrawals = w.withdrawals;
}

pub withdraws-Sound : (b c : Bgp) (u : Update) → withdraw u b ≡ ok c → Sound b → Sound c
withdraws-Sound b c u f w =
    let (t, up, wd) = Yields-ok (Withdrawn b) (withdraw u b) c (withdraw-Withdrawn u b w.table) f in
    record {
      table = t;
      updates = subst (All IsRouted) (sym up) w.updates;
      withdrawals = subst (All IsRouted) (sym wd) w.withdrawals;
    }

pub withdrawn-Sound :
    (b : Bgp) (u : Update) (us : List Update)
    → b.adj_rib_in_wdraw_q ≡ u ∷ us
    → Sound b
    → Sound (record b { adj_rib_in_wdraw_q = us; table_version = b.table_version + 1 })
withdrawn-Sound b u us e w = record {
  table = w.table;
  updates = w.updates;
  withdrawals = (subst (All IsRouted) e w.withdrawals).1;
}

pub flushes-Sound :
    (b : Bgp) (i : ℕ) (m : Rib)
    → flush_peer i b.adj_rib_in ≡ some m
    → Sound b
    → Sound (record b { adj_rib_in = m })
flushes-Sound b i m e w = record {
  table = flush_peer-TableSound i b.thread_q b.adj_rib_in m e w.table;
  updates = w.updates;
  withdrawals = w.withdrawals;
}

pub popped-PeerFits :
    (p : Peer) (d : QueueData) (ds : List QueueData)
    → p.in_queue ≡ d ∷ ds
    → PeerFits p
    → PeerFits (record p { in_queue = ds; in_q = dec16 p.in_q })
unfolding input_of
popped-PeerFits p d ds e w = record {
  id = w.id;
  queue = (subst (All PacketFits) e w.queue).1;
  input = w.input;
}

pub disconnected-PeerFits :
    (p : Peer) → PeerFits p → PeerFits (record p { tcp = disconnect p.tcp; up_since = 0 })
unfolding disconnect input_of
disconnected-PeerFits p w = record { id = w.id; queue = w.queue; input = tt }
