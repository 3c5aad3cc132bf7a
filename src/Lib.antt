-- ===== src/Lib.antt =====
-- log2BGP: a BGP listener that keeps the routes of its neighbors, the history of each route and
-- the state of each session.
--
-- The parts, and the files that model them:
-- - Msg, Msg/Codes: the structures and codes of include/bgp_msg.h, and the copy of an update.
-- - Tcp: the streams of a connection, src/tcp_client.cpp: connected, read, write, tx_flush,
--   disconnect.
-- - Peer: one neighbor, include/bgp_peer.h and src/bgp_peer.cpp.
-- - Bgp: the state of the daemon, include/bgp.h and src/bgp.cpp. Threads: the neighbor table,
--   src/bgp_thread-mgr.cpp, with what is added to it, looked up in it and taken out of it.
-- - Session: send_packet and the notifications (Send), send_open and decode_open (Open), the
--   hold timer and the start of proc_in_q (Timer), connecting and init_peer_states (Start), a
--   turn of the read loop of peer_established (Receive), the loop with its end (Established),
--   and init_peer, one session after the other (Lifetime). Each message read is handled at once;
--   an UPDATE goes to the queue of its peer.
-- - Decode: proc_in_q of src/bgp_update.cpp takes the messages from the queue of a peer and puts
--   one update per prefix on the two queues of the daemon.
-- - Rib: the two queues of src/bgp.cpp enter and withdraw routes, and count them in the peer of
--   the neighbor table. The table is a std::map (OrderedMap) in the order of rib_sort.
-- - Database: peer_entry writes each route that it replaces to the file of src/bgp_database.cpp;
--   db_get_entries reads the history of a prefix back. The file keeps its position, so an insert
--   behind a query goes where the query ended.
-- - Alias: set_translation of src/bgp_peer.cpp keeps names for values of attributes, and the
--   translate functions of src/bgp_attrib_alias.cpp print them (Names, Lookup, Replace).
-- - Cli: the command tree of include/cli/bgp_command_struct.h (Table), the parser of
--   cli/bgp_cmdparser.cpp (Cli, Search, Words), the commands of cli/bgp_cli.cpp that change the
--   daemon (Settings, Numbers), the file that write_configs writes (Save, Config) and its lines
--   read back (Roundtrip, Restore), the buffer sizes of a peer (Buffers), and show_bgp_prefix
--   (Show).
-- - Api: the match of a query with the table, in api/bgp_api.cpp and cli/bgp_cli.cpp, and
--   api_get_all_origin_as (Match); is_rfc1918 and the queries for the public and the private
--   routes of an AS (Rfc1918); jsonify_entry (Json) and api_get_prefix (Prefix).
-- - Server: a connection of the command line and a connection of the API, in src/tcp_server.cpp.
--   Both give lines to the parser and send its text back. Program is what a connection uses of
--   the daemon: the command table with the commands of Cli.
-- - Main: a turn of the loop of init_BGP, src/bgp.cpp: proc_in_q of each peer, then the two
--   queues.
-- - Log: the log of updates of src/bgp_syslog.cpp (its line in Text), with the senders of
--   include/udp_sender.h (Sender) and the command that sets them. It keeps its own state; Rib
--   records only which updates are logged.
-- - World: the daemon with all its threads (src/bgp.cpp). MainStep, PeerStep and CommandStep are
--   what the main thread, the thread of a peer, and the command line or the API do in one step:
--   at most one change of the table or of a queue. Reach is any sequence of steps from the
--   start, so the loops of Main and Session are not assumed to run in turns, and a table that is
--   partly filled or flushed is a state of its own. A fault ends the program, and is no step.
-- - Base: numbers, words, bytes and the result type that the parts share. Tests: concrete runs.
--
-- Memory is modelled where the source can leave it: a read or a copy outside a buffer and a null
-- pointer that is followed are faults (Base/Fail). Machine words wrap around as in the source.
-- The host is little-endian. Times are seconds given as arguments. inet_ntoa, inet_pton,
-- inet_ntop, inet_aton, strftime, and the bytes of a new buffer or a new peer before they are
-- filled, are parameters; so is std::sort on the names of a peer, of which the model needs only
-- that it permutes them, and what the calls of the system return in an attempt to connect. The
-- sort of the commands is an insertion sort, as no two names beside each other are equal.
--
-- Fuel: parse_nlri takes at least one byte per turn, and is given one more turn than the packet
-- has bytes; parse_attribs takes three bytes per turn, and is given a turn per byte; the flush
-- loop erases a route per turn, and is given a turn per route. The read loop takes its fuel as
-- an argument, as the neighbor decides how long it runs: a turn per byte left to read and two
-- more are enough. So does a connection of the command line: a turn per command and one more are
-- enough. The loop of init_peer_states takes the attempts to connect as a list, and that of
-- init_peer its rounds. delete_peer is given a turn per peer and one to leave its loop, which is
-- enough for up to 255 peers; with more its index wraps around. CmdInit sorts at most ten
-- levels, and no path of the table is longer.
--
-- Not modelled: the text of syslog(), the show commands for the neighbors and the whole table,
-- the listen loops of the command line and the API, the timer thread, and the start of the
-- program and of its threads. A lock is modelled only in that what it guards is changed in one
-- step. What two threads do to the same variable without a lock, as with thread_q and the test
-- of in_queue, is taken as one step after the other.
pub mod Base
pub mod Msg
pub mod OrderedMap
pub mod Tcp
pub mod Peer
pub mod Database
pub mod Bgp
pub mod Threads
pub mod Rib
pub mod Decode
pub mod Session
pub mod Alias
pub mod Cli
pub mod Api
pub mod Server
pub mod Main
pub mod Log
pub mod World
pub mod Tests
