-- ===== src/World/Invariant.antt =====
-- src/bgp.cpp: what holds in every state that the steps of all threads reach, in any order, and
-- whatever bytes the neighbors send.
use log2bgp.Base.{ℕ, sym, subst, All}
use log2bgp.Bgp.{Bgp, init_bgp}
use log2bgp.Threads.{delete_peer}
use log2bgp.Alias.{set_translation}
use log2bgp.Session.Start.{attempt}
use log2bgp.Session.Receive.{receive}
use log2bgp.Cli.Settings.{proto_bgp_toggle_update_dump, set_bgp_id, proto_bgp_neighbor}
use log2bgp.World.Yields.{Yields-ok}
use log2bgp.World.Peers.{PeerFits}
use log2bgp.World.Receive.{receive-PeerFits}
use log2bgp.World.Sound.{Sound}
use log2bgp.World.Decode.{pushes-Sound}
use log2bgp.World.Connect.{hold_timer_expired-PeerFits, attempt-PeerFits, send_open-PeerFits}
use log2bgp.World.Places.{
  place-PeerFits, with_peer_at-Sound, enters-Sound, entered-Sound, withdraws-Sound, withdrawn-Sound,
  flushes-Sound, popped-PeerFits, disconnected-PeerFits,
}
use log2bgp.World.Commands.{
  Answered, delete_peer-PeerFits, set_rx-PeerFits, set_tx-PeerFits, set_translation-PeerFits,
  proto_bgp_neighbor-Answered, proto_bgp_toggle_update_dump-Answered, set_bgp_id-Answered,
  kill_all_signal-Sound,
}
use log2bgp.World.{MainStep, PeerStep, CommandStep, Step, Reach}

-- Every step of every thread keeps the daemon sound.
MainStep-Sound : (b c : Bgp) → MainStep b c → Sound b → Sound c
MainStep-Sound b c (MainStep.checks now l s) w =
    subst Sound (sym s) (
      with_peer_at-Sound b b l _ w (hold_timer_expired-PeerFits now l.peer (place-PeerFits b l w))
        w)
MainStep-Sound b c (MainStep.pops d ds l e s) w =
    subst Sound (sym s)
      (with_peer_at-Sound b b l _ w (popped-PeerFits l.peer d ds e (place-PeerFits b l w)) w)
MainStep-Sound b c (MainStep.pushes flag now l packet offset n prefix u k e z f s) w =
    subst Sound (sym s) (
      pushes-Sound flag now l.peer.bgp_id packet offset n prefix u b (place-PeerFits b l w).id k z f
        w)
MainStep-Sound b c (MainStep.enters u us e s) w = subst Sound (sym s) (enters-Sound b u us e w)
MainStep-Sound b c (MainStep.entered u us e s) w = subst Sound (sym s) (entered-Sound b u us e w)
MainStep-Sound b c (MainStep.withdraws u us e f) w = withdraws-Sound b c u f w
MainStep-Sound b c (MainStep.withdrawn u us e s) w =
    subst Sound (sym s) (withdrawn-Sound b u us e w)

PeerStep-Sound : (b c : Bgp) → PeerStep b c → Sound b → Sound c
PeerStep-Sound b c (PeerStep.idles l s) w =
    let v = place-PeerFits b l w in
    subst Sound (sym s)
      (with_peer_at-Sound b b l _ w (record { id = v.id; queue = v.queue; input = v.input }) w)
PeerStep-Sound b c (PeerStep.attempts a l q f g e s) w =
    let v =
      Yields-ok PeerFits (attempt a l.peer) q (attempt-PeerFits a l.peer f (place-PeerFits b l w))
        e in
    subst Sound (sym s) (with_peer_at-Sound b b l q w v w)
PeerStep-Sound b c (PeerStep.opens now l g s) w =
    subst Sound (sym s)
      (with_peer_at-Sound b b l _ w (send_open-PeerFits now b l.peer (place-PeerFits b l w)) w)
PeerStep-Sound b c (PeerStep.receives t l q a g e s) w =
    let v =
      Yields-ok PeerFits (receive t b l.peer) q
        (receive-PeerFits t b l.peer a (place-PeerFits b l w)) e in
    subst Sound (sym s) (with_peer_at-Sound b b l q w v w)
PeerStep-Sound b c (PeerStep.flushes l m g e s) w =
    subst Sound (sym s) (flushes-Sound b l.peer.bgp_id m e w)
PeerStep-Sound b c (PeerStep.counts l g s) w =
    let v = place-PeerFits b l w in
    subst Sound (sym s)
      (with_peer_at-Sound b b l _ w (record { id = v.id; queue = v.queue; input = v.input }) w)
PeerStep-Sound b c (PeerStep.disconnects l g s) w =
    subst Sound (sym s)
      (with_peer_at-Sound b b l _ w (disconnected-PeerFits l.peer (place-PeerFits b l w)) w)
PeerStep-Sound b c (PeerStep.empties l g s) w =
    let v = place-PeerFits b l w in
    subst Sound (sym s)
      (with_peer_at-Sound b b l _ w (record { id = v.id; queue = tt; input = v.input }) w)
PeerStep-Sound b c (PeerStep.deletes i ps e s) w = subst Sound (sym s) (record {
  table = record {
    well_formed = w.table.well_formed;
    routed = w.table.routed;
    peers =
        Yields-ok (All PeerFits) (delete_peer i b.thread_q) ps
          (delete_peer-PeerFits i b.thread_q w.table.peers) e;
  };
  updates = w.updates;
  withdrawals = w.withdrawals;
})

CommandStep-Sound : (b c : Bgp) → CommandStep b c → Sound b → Sound c
CommandStep-Sound b c (CommandStep.queries u us d e s) w = subst Sound (sym s) (record {
  table = record {
    well_formed = w.table.well_formed;
    routed = w.table.routed;
    peers = w.table.peers;
  };
  updates = w.updates;
  withdrawals = w.withdrawals;
})
CommandStep-Sound b c (CommandStep.starts heap inet_pton inet_ntop tokens text e) w =
    Yields-ok Answered (proto_bgp_neighbor heap inet_pton inet_ntop tokens b) (text, c)
      (proto_bgp_neighbor-Answered heap inet_pton inet_ntop tokens b w) e
CommandStep-Sound b c (CommandStep.translates sort code value name l q e s) w =
    let v =
      Yields-ok PeerFits (set_translation sort code value name l.peer) q
        (set_translation-PeerFits sort code value name l.peer (place-PeerFits b l w)) e in
    subst Sound (sym s) (with_peer_at-Sound b b l q w v w)
CommandStep-Sound b c (CommandStep.sets_rx tcp bgp l s) w =
    subst Sound (sym s)
      (with_peer_at-Sound b b l _ w (set_rx-PeerFits tcp bgp l.peer (place-PeerFits b l w)) w)
CommandStep-Sound b c (CommandStep.sets_tx tcp bgp l s) w =
    subst Sound (sym s)
      (with_peer_at-Sound b b l _ w (set_tx-PeerFits tcp bgp l.peer (place-PeerFits b l w)) w)
CommandStep-Sound b c (CommandStep.toggles tokens text e) w =
    Yields-ok Answered (proto_bgp_toggle_update_dump tokens b) (text, c)
      (proto_bgp_toggle_update_dump-Answered tokens b w) e
CommandStep-Sound b c (CommandStep.identifies inet_aton stack tokens text e) w =
    Yields-ok Answered (set_bgp_id inet_aton stack tokens b) (text, c)
      (set_bgp_id-Answered inet_aton stack tokens b w) e
CommandStep-Sound b c (CommandStep.stops s) w = subst Sound (sym s) (kill_all_signal-Sound b w)

Step-Sound : (b c : Bgp) → Step b c → Sound b → Sound c
Step-Sound b c (Step.main s) = MainStep-Sound b c s
Step-Sound b c (Step.peer s) = PeerStep-Sound b c s
Step-Sound b c (Step.command s) = CommandStep-Sound b c s

init_bgp-Sound : (asn : ℕ) → Sound (init_bgp asn)
unfolding init_bgp
init_bgp-Sound asn = record {
  table = record { well_formed = record { sorted = tt; keys = tt }; routed = tt; peers = tt };
  updates = tt;
  withdrawals = tt;
}

-- In every state that is reached from the start by steps of the main thread, of the threads of the
-- peers and of the commands, each step at most one change of the table or of a queue, in any order,
-- and whatever bytes the neighbors send: the table is sorted by rib_sort, each route under its own key;
-- each route of the table, each queued update and each queued withdrawal has an nlri that parse_nlri
-- has made of a prefix of 1 to 32 bits, a 32-bit word and a 32-bit bgp_id; and each peer has a 32-bit
-- bgp_id, with bytes only in its queue and its input.
pub Reach-Sound : (asn : ℕ) {b : Bgp} → Reach (init_bgp asn) b → Sound b
Reach-Sound asn Reach.here = init_bgp-Sound asn
Reach-Sound asn (Reach.next {b} {c} r s) = Step-Sound b c s (Reach-Sound asn r)
