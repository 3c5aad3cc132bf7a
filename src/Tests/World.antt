-- ===== src/Tests/World.antt =====
-- src/bgp.cpp: a run of the daemon from its start: a neighbor is configured, connects, and sends an OPEN,
-- a KEEPALIVE and an UPDATE.
use log2bgp.Base.{
  ℕ, ◌+◌, ◌≡◌, refl, Bool, true, false, ltb, ◌&&◌, List, [], ◌∷◌, ◌++◌, Option, some, arith,
}
use log2bgp.Base.Text.{codes}
use log2bgp.Base.Words.{ℤ, pos}
use log2bgp.Tcp.{Tcp}
use log2bgp.Peer.{Peer, new_peer, zero_stats}
use log2bgp.Bgp.{Bgp, NlriParse, init_bgp}
use log2bgp.Session.Start.{Attempt, attempt}
use log2bgp.Session.Receive.{Turn, receive}
use log2bgp.Cli.Settings.{proto_bgp_neighbor}
use log2bgp.Rib.{peer_entry}
use log2bgp.Msg.{PeerState, Update, empty_update, empty_nlri}
use log2bgp.Api.Match.{prefix_matches}
use log2bgp.World.{Place, MainStep, PeerStep, CommandStep, Step, Reach}
use log2bgp.World.Table.{peer_entry-updates}
use log2bgp.Decode.Nlri.{push}
use log2bgp.Session.Open.{send_open}
use log2bgp.World.Bytes.{Bytes}
use log2bgp.World.Sound.{Sound}
use log2bgp.World.Invariant.{Reach-Sound}
use log2bgp.World.Query.{Answers, Selects, Reach-prefix_matches}

abbrev start : Bgp
start = init_bgp 65000

abbrev inet_pton : List ℕ → Option ℕ
inet_pton t = some 16777226

abbrev inet_ntop : ℕ → List ℕ
inet_ntop a = codes "10.0.0.1"

abbrev words : List (List ℕ)
words = codes "neighbor" ∷ codes "10.0.0.1" ∷ codes "as" ∷ codes "65001" ∷ []

abbrev marker : List ℕ
marker =
    255 ∷ 255 ∷ 255 ∷ 255 ∷ 255 ∷ 255 ∷ 255 ∷ 255 ∷ 255 ∷ 255 ∷ 255 ∷ 255 ∷ 255 ∷ 255 ∷ 255 ∷ 255
    ∷ []

-- An OPEN of AS 65001 with the identifier 7, a KEEPALIVE, and an UPDATE of 10.1.2.0/24; and the OPEN
-- of the daemon.
abbrev open_bytes : List ℕ
open_bytes = marker ++ (0 ∷ 29 ∷ 1 ∷ 4 ∷ 253 ∷ 233 ∷ 0 ∷ 180 ∷ 0 ∷ 0 ∷ 0 ∷ 7 ∷ 0 ∷ [])

abbrev keepalive_bytes : List ℕ
keepalive_bytes = marker ++ (0 ∷ 19 ∷ 4 ∷ [])

abbrev update_bytes : List ℕ
update_bytes = marker ++ (0 ∷ 27 ∷ 2 ∷ 0 ∷ 0 ∷ 0 ∷ 0 ∷ 24 ∷ 10 ∷ 1 ∷ 2 ∷ [])

abbrev answer_bytes : List ℕ
answer_bytes = marker ++ (0 ∷ 29 ∷ 1 ∷ 4 ∷ 253 ∷ 232 ∷ 0 ∷ 180 ∷ 0 ∷ 0 ∷ 0 ∷ 0 ∷ 0 ∷ [])

abbrev calls : Attempt
calls = record {
  now = 100;
  resolved = true;
  addresses = (pos 5, true) ∷ [];
  tx_opens = true;
  rx_opens = true;
  input = open_bytes ++ keepalive_bytes ++ update_bytes;
  bgp_rx_resized = true;
  bgp_tx_resized = true;
  tcp_rx_resized = true;
  tcp_tx_resized = true;
}

abbrev turn : Turn
turn = record { now = 110; stale = []; inet_ntoa = λ a. some [] }

-- The neighbor after each step.
abbrev idle_neighbor : Peer
idle_neighbor = record new_peer { asn = 65001; p_ip = codes "10.0.0.1"; addr_family = 2 }

abbrev connection : List ℕ → List ℕ → Tcp
connection pending wire = record {
  tcp_socket = pos 5;
  rx = some (record { pending = pending; eof = false });
  tx = some [];
  wire = wire;
}

abbrev connected_neighbor : Peer
connected_neighbor = record idle_neighbor {
  tcp = connection (open_bytes ++ keepalive_bytes ++ update_bytes) [];
  state = PeerState.connect;
}

abbrev calling_neighbor : Peer
calling_neighbor = record idle_neighbor {
  tcp = connection (open_bytes ++ keepalive_bytes ++ update_bytes) answer_bytes;
  opens = record zero_stats { tx = 1; last_tx = 100 };
  tx_rx = record zero_stats { tx = 29 };
  state = PeerState.opensent;
  last_io = record { last_read = 0; last_write = 100 };
}

abbrev open_neighbor : Peer
open_neighbor = record calling_neighbor {
  tcp = connection (keepalive_bytes ++ update_bytes) (answer_bytes ++ keepalive_bytes);
  bgp_id = 117440512;
  opens = record zero_stats { tx = 1; rx = 1; last_rx = 110; last_tx = 100 };
  keepaliv = record zero_stats { tx = 1; last_tx = 110 };
  tx_rx = record zero_stats { tx = 48 };
  state = PeerState.openconfirm;
  last_io = record { last_read = 110; last_write = 110 };
}

abbrev established_neighbor : Peer
established_neighbor = record open_neighbor {
  tcp = connection update_bytes (answer_bytes ++ keepalive_bytes ++ keepalive_bytes);
  up_since = 110;
  keepaliv = record zero_stats { tx = 2; rx = 1; last_rx = 110; last_tx = 110 };
  tx_rx = record zero_stats { tx = 67 };
  state = PeerState.established;
}

abbrev heard_neighbor : Peer
heard_neighbor = record established_neighbor {
  tcp = connection [] (answer_bytes ++ keepalive_bytes ++ keepalive_bytes);
  in_q = 1;
  update = record zero_stats { rx = 1; last_rx = 110 };
  in_queue = record { length = 8; packet = 0 ∷ 0 ∷ 0 ∷ 0 ∷ 24 ∷ 10 ∷ 1 ∷ 2 ∷ [] } ∷ [];
}

abbrev decoded_neighbor : Peer
decoded_neighbor = record heard_neighbor { in_q = 0; in_queue = [] }

abbrev announcement : Update
announcement = record empty_update {
  addr_family = 2;
  nlri = record empty_nlri {
    bgp_id = 117440512;
    prefix = 131338;
    prefix_highest = 4278321418;
    prefix_length = 24;
    age = 120;
  };
}

abbrev with_neighbor : Peer → Bgp
with_neighbor p = record start { thread_q = p ∷ [] }

abbrev queued : Bgp
queued = record (with_neighbor decoded_neighbor) { adj_rib_in_q = announcement ∷ [] }

abbrev entered : Bgp
entered = record (peer_entry announcement queued) {
  adj_rib_in_q = [];
  table_version = (peer_entry announcement queued).table_version + 1;
}

abbrev neighbor_of : (p : Peer) → Place (with_neighbor p)
unfolding init_bgp
neighbor_of p = record { before = []; peer = p; behind = []; found = refl }

-- Whether all are below 256.
abbrev all_bytes : List ℕ → Bool
all_bytes [] = true
all_bytes (b ∷ bs) = ltb b 256 && all_bytes bs

Bytes-all_bytes : (bs : List ℕ) → all_bytes bs ≡ true → Bytes bs
Bytes-all_bytes [] e = tt
Bytes-all_bytes (b ∷ bs) e = (ground arith, Bytes-all_bytes bs (ground arith))

starts-Step : Step start (with_neighbor idle_neighbor)
unfolding init_bgp proto_bgp_neighbor log2bgp.Base.get_elem? log2bgp.Cli.Numbers.string_to_uint32_t
starts-Step = Step.command (CommandStep.starts [] inet_pton inet_ntop words [] refl)

connects-Step : Step (with_neighbor idle_neighbor) (with_neighbor connected_neighbor)
unfolding init_bgp attempt log2bgp.Session.Send.is_idle
connects-Step = Step.peer (
    PeerStep.attempts calls (neighbor_of idle_neighbor) connected_neighbor
      (Bytes-all_bytes (calls.input) refl) refl refl refl)

calls-Step : Step (with_neighbor connected_neighbor) (with_neighbor calling_neighbor)
unfolding init_bgp send_open log2bgp.Session.Send.is_idle log2bgp.Session.Send.send_packet
    log2bgp.Tcp.tx_flush log2bgp.Peer.count_tx log2bgp.Tcp.write log2bgp.Tcp.write_formated
    log2bgp.Msg.msg_code
calls-Step = Step.peer (PeerStep.opens 100 (neighbor_of connected_neighbor) refl refl)

opens-Step : Step (with_neighbor calling_neighbor) (with_neighbor open_neighbor)
unfolding init_bgp receive log2bgp.Session.Established.Agreement.goes_on log2bgp.Tcp.connected
    log2bgp.Session.Send.is_idle log2bgp.Tcp.read log2bgp.Decode.Buffer.byte_at
    log2bgp.Base.get_elem? log2bgp.Base.drop log2bgp.Msg.msg_type log2bgp.Session.Open.decode_open
    log2bgp.Session.Send.send_packet log2bgp.Tcp.tx_flush log2bgp.Peer.count_rx
    log2bgp.Peer.count_tx log2bgp.Tcp.write log2bgp.Tcp.write_formated log2bgp.Msg.msg_code
opens-Step =
    Step.peer
      (PeerStep.receives turn (neighbor_of calling_neighbor) open_neighbor tt refl refl refl)

establishes-Step : Step (with_neighbor open_neighbor) (with_neighbor established_neighbor)
unfolding init_bgp receive log2bgp.Session.Established.Agreement.goes_on log2bgp.Tcp.connected
    log2bgp.Session.Send.is_idle log2bgp.Tcp.read log2bgp.Decode.Buffer.byte_at
    log2bgp.Base.get_elem? log2bgp.Msg.msg_type log2bgp.Session.Send.send_packet
    log2bgp.Tcp.tx_flush log2bgp.Peer.count_tx log2bgp.Tcp.write log2bgp.Peer.count_rx
    log2bgp.Tcp.write_formated log2bgp.Base.drop log2bgp.Msg.msg_code
establishes-Step =
    Step.peer
      (PeerStep.receives turn (neighbor_of open_neighbor) established_neighbor tt refl refl refl)

hears-Step : Step (with_neighbor established_neighbor) (with_neighbor heard_neighbor)
unfolding init_bgp receive log2bgp.Session.Established.Agreement.goes_on log2bgp.Tcp.connected
    log2bgp.Session.Send.is_idle log2bgp.Tcp.read log2bgp.Decode.Buffer.byte_at
    log2bgp.Base.get_elem? log2bgp.Base.drop log2bgp.Msg.msg_type log2bgp.Peer.count_rx
hears-Step =
    Step.peer
      (PeerStep.receives turn (neighbor_of established_neighbor) heard_neighbor tt refl refl refl)

-- The message, with its padding.
abbrev message_bytes : List ℕ
message_bytes = 0 ∷ 0 ∷ 0 ∷ 0 ∷ 24 ∷ 10 ∷ 1 ∷ 2 ∷ 0 ∷ 0 ∷ 0 ∷ 0 ∷ 0 ∷ []

pops-Step : Step (with_neighbor heard_neighbor) (with_neighbor decoded_neighbor)
unfolding init_bgp
pops-Step = Step.main (
    MainStep.pops (record { length = 8; packet = 0 ∷ 0 ∷ 0 ∷ 0 ∷ 24 ∷ 10 ∷ 1 ∷ 2 ∷ [] }) []
      (neighbor_of heard_neighbor) refl refl)

pushes-Step : Step (with_neighbor decoded_neighbor) queued
unfolding init_bgp push log2bgp.Decode.Buffer.byte_at log2bgp.Base.get_elem?
    log2bgp.Decode.Buffer.copy_u32 log2bgp.Decode.Nlri.byte_length log2bgp.Decode.Buffer.bytes_at
    log2bgp.Decode.Buffer.le_value log2bgp.Msg.assign log2bgp.Decode.Nlri.new_nlri
    log2bgp.Decode.Nlri.get_ipv4_high_range log2bgp.Base.Words.ntohl
pushes-Step = Step.main (
    MainStep.pushes NlriParse.update 120 (neighbor_of decoded_neighbor) message_bytes 4 24 131338
      (record empty_update { addr_family = 2 }) (Bytes-all_bytes message_bytes refl) refl refl refl
      refl)

enters-Step : Step queued (peer_entry announcement queued)
enters-Step = Step.main (MainStep.enters announcement [] refl refl)

entered-Step : Step (peer_entry announcement queued) entered
entered-Step =
    Step.main (MainStep.entered announcement [] (peer_entry-updates announcement queued) refl)

run : Reach start entered
run =
    Reach.next
      (Reach.next
        (Reach.next
          (Reach.next
            (Reach.next
              (Reach.next
                (Reach.next
                  (Reach.next (Reach.next (Reach.next Reach.here starts-Step) connects-Step)
                    calls-Step)
                  opens-Step)
                establishes-Step)
              hears-Step)
            pops-Step)
          pushes-Step)
        enters-Step)
      entered-Step

Reach-Sound_example : Sound entered
Reach-Sound_example = Reach-Sound 65000 run

-- 10.1.2.5 is answered.
Reach-prefix_matches_example :
    Selects
      (Answers 84017418)
      (peer_entry announcement queued).adj_rib_in
      (prefix_matches 84017418 (peer_entry announcement queued).adj_rib_in)
Reach-prefix_matches_example = Reach-prefix_matches 65000 84017418 run

-- The route answers 10.1.2.5.
entered_route :
    prefix_matches 84017418 (peer_entry announcement queued).adj_rib_in ≡ announcement ∷ []
unfolding init_bgp peer_entry prefix_matches log2bgp.Threads.get_peer_by_bgp_id
    log2bgp.OrderedMap.find log2bgp.OrderedMap.insert log2bgp.Rib.memcmp_lt log2bgp.Msg.assign
entered_route = refl
