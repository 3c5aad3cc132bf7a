-- ===== src/World.antt =====
-- src/bgp.cpp: the daemon with all its threads. The main thread, a thread for each peer and the
-- threads of the command line take steps in any order. A step is at most one change of the table or
-- of a queue; what a thread reads and writes without a lock in one step is taken as one.
pub mod Yields
pub mod Bytes
pub mod Peers
pub mod Receive
pub mod Sound
pub mod Decode
pub mod Connect
pub mod Table
pub mod Places
pub mod Commands
pub mod Invariant
pub mod Query
use log2bgp.Base.{
  All, ℕ, ◌+◌, ◌==◌, ◌≡◌, Bool, true, false, Option, some, List, [], ◌∷◌, ◌++◌, Result, ok,
}
use log2bgp.Base.Words.{dec16, dec32}
use log2bgp.Msg.{Update, PeerState}
use log2bgp.Tcp.{disconnect}
use log2bgp.Peer.{Peer, QueueData, TranslateAttrib}
use log2bgp.Bgp.{Bgp, NlriParse}
use log2bgp.Threads.{delete_peer}
use log2bgp.Alias.{set_translation}
use log2bgp.Rib.{Rib, peer_entry, withdraw, flush_peer}
use log2bgp.Decode.Buffer.{byte_at, copy_u32}
use log2bgp.Decode.Nlri.{byte_length, new_nlri, push}
use log2bgp.Session.Send.{is_idle}
use log2bgp.Session.Open.{send_open}
use log2bgp.Session.Start.{Attempt, attempt}
use log2bgp.Session.Receive.{Turn, receive}
use log2bgp.Session.Timer.{hold_timer_expired}
use log2bgp.Session.Established.Agreement.{goes_on}
use log2bgp.Database.{Database, db_get_entries}
use log2bgp.Cli.Settings.{
  proto_bgp_toggle_update_dump, kill_all_signal, set_bgp_id, proto_bgp_neighbor,
}
use log2bgp.Cli.Buffers.{set_rx, set_tx}
use log2bgp.World.Bytes.{IsByte}
use log2bgp.World.Receive.{TurnFits}
use log2bgp.World.Connect.{AttemptFits}

-- --peer->prefixes.current.rx.
abbrev pub count_flushed : Peer → Peer
count_flushed p = record p {
  prefixes = record p.prefixes {
    current = record p.prefixes.current { rx = dec32 p.prefixes.current.rx };
  };
}

-- A peer of the table, between those before and behind it.
pub record Place (b : Bgp) : Type 0 where
  pub before : List Peer
  pub peer : Peer
  pub behind : List Peer
  pub found : b.thread_q ≡ before ++ peer ∷ behind

-- The daemon `d`, with another value of the peer.
abbrev pub with_peer_at : {b : Bgp} → Place b → Peer → Bgp → Bgp
with_peer_at l q d = record d { thread_q = l.before ++ q ∷ l.behind }

-- A step of the main thread: the timers of a peer; a message taken from the queue of a peer; one
-- prefix of a message put on a queue, where what the thread holds of the message, its position and
-- its attributes is any; a queued update or withdrawal; and its removal from the queue.
pub data MainStep (b c : Bgp) : Type 0 where
  checks :
      (now : ℕ) (l : Place b)
      → c ≡ with_peer_at l ((hold_timer_expired now l.peer).1) b
      → MainStep b c
  pops :
      (d : QueueData) (ds : List QueueData) (l : Place b)
      → l.peer.in_queue ≡ d ∷ ds
      → c ≡ with_peer_at l (record l.peer { in_queue = ds; in_q = dec16 l.peer.in_q }) b
      → MainStep b c
  pushes :
      (flag : NlriParse) (now : ℕ) (l : Place b) (packet : List ℕ) (offset n prefix : ℕ)
      (u : Update)
      → All IsByte packet
      → byte_at packet offset ≡ ok n
      → (n == 0) ≡ false
      → copy_u32 0 packet (offset + 1) (byte_length n) ≡ ok prefix
      → c ≡ push flag (record u { nlri = new_nlri flag now l.peer.bgp_id n prefix }) b
      → MainStep b c
  enters :
      (u : Update) (us : List Update) → b.adj_rib_in_q ≡ u ∷ us → c ≡ peer_entry u b → MainStep b c
  entered :
      (u : Update) (us : List Update)
      → b.adj_rib_in_q ≡ u ∷ us
      → c ≡ record b { adj_rib_in_q = us; table_version = b.table_version + 1 }
      → MainStep b c
  withdraws :
      (u : Update) (us : List Update)
      → b.adj_rib_in_wdraw_q ≡ u ∷ us
      → withdraw u b ≡ ok c
      → MainStep b c
  withdrawn :
      (u : Update) (us : List Update)
      → b.adj_rib_in_wdraw_q ≡ u ∷ us
      → c ≡ record b { adj_rib_in_wdraw_q = us; table_version = b.table_version + 1 }
      → MainStep b c

-- A step of the thread of a peer: the start of init_peer_states, an attempt to connect, the OPEN; a
-- turn of the read loop; and behind that loop one route flushed, the counter of the routes, the
-- connection closed, and the queue emptied; at last the peer is deleted.
pub data PeerStep (b c : Bgp) : Type 0 where
  idles :
      (l : Place b) → c ≡ with_peer_at l (record l.peer { state = PeerState.idle }) b → PeerStep b c
  attempts :
      (a : Attempt) (l : Place b) (q : Peer)
      → AttemptFits a
      → is_idle l.peer.state ≡ true
      → attempt a l.peer ≡ ok q
      → c ≡ with_peer_at l q b
      → PeerStep b c
  opens :
      (now : ℕ) (l : Place b)
      → is_idle l.peer.state ≡ false
      → c ≡ with_peer_at l (send_open now b l.peer) b
      → PeerStep b c
  receives :
      (t : Turn) (l : Place b) (q : Peer)
      → TurnFits t
      → goes_on b l.peer ≡ true
      → receive t b l.peer ≡ ok q
      → c ≡ with_peer_at l q b
      → PeerStep b c
  flushes :
      (l : Place b) (m : Rib)
      → goes_on b l.peer ≡ false
      → flush_peer l.peer.bgp_id b.adj_rib_in ≡ some m
      → c ≡ record b { adj_rib_in = m }
      → PeerStep b c
  counts :
      (l : Place b)
      → goes_on b l.peer ≡ false
      → c ≡ with_peer_at l (count_flushed l.peer) b
      → PeerStep b c
  disconnects :
      (l : Place b)
      → goes_on b l.peer ≡ false
      → c ≡ with_peer_at l (record l.peer { tcp = disconnect l.peer.tcp; up_since = 0 }) b
      → PeerStep b c
  empties :
      (l : Place b)
      → goes_on b l.peer ≡ false
      → c ≡ with_peer_at l (record l.peer { in_queue = [] }) b
      → PeerStep b c
  deletes :
      (self : ℕ) (ps : List Peer)
      → delete_peer self b.thread_q ≡ ok ps
      → c ≡ record b { thread_q = ps }
      → PeerStep b c

-- A step of the command line or the API: the history of a route is read, which moves the file; a
-- neighbor, a name, the sizes of the buffers of a peer, and the settings of the daemon.
pub data CommandStep (b c : Bgp) : Type 0 where
  queries :
      (u : Update) (us : List Update) (d : Database)
      → db_get_entries u b.database ≡ some (us, d)
      → c ≡ record b { database = d }
      → CommandStep b c
  starts :
      (heap : List ℕ) (inet_pton : List ℕ → Option ℕ) (inet_ntop : ℕ → List ℕ)
      (tokens : List (List ℕ)) (text : List ℕ)
      → proto_bgp_neighbor heap inet_pton inet_ntop tokens b ≡ ok (text, c)
      → CommandStep b c
  translates :
      (sort : List TranslateAttrib → List TranslateAttrib) (code value : ℕ) (name : List ℕ)
      (l : Place b) (q : Peer)
      → set_translation sort code value name l.peer ≡ ok q
      → c ≡ with_peer_at l q b
      → CommandStep b c
  sets_rx :
      (tcp bgp : ℕ) (l : Place b) → c ≡ with_peer_at l (set_rx tcp bgp l.peer) b → CommandStep b c
  sets_tx :
      (tcp bgp : ℕ) (l : Place b) → c ≡ with_peer_at l (set_tx tcp bgp l.peer) b → CommandStep b c
  toggles :
      (tokens : List (List ℕ)) (text : List ℕ)
      → proto_bgp_toggle_update_dump tokens b ≡ ok (text, c)
      → CommandStep b c
  identifies :
      (inet_aton : List ℕ → Option ℕ) (stack : ℕ) (tokens : List (List ℕ)) (text : List ℕ)
      → set_bgp_id inet_aton stack tokens b ≡ ok (text, c)
      → CommandStep b c
  stops : c ≡ (kill_all_signal b).1 → CommandStep b c

pub data Step (b c : Bgp) : Type 0 where
  main : MainStep b c → Step b c
  peer : PeerStep b c → Step b c
  command : CommandStep b c → Step b c

-- The states that the daemon can reach.
pub data Reach (start : Bgp) : Bgp → Type 0 where
  here : Reach start start
  next : {b c : Bgp} → Reach start b → Step b c → Reach start c
