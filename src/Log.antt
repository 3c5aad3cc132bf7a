-- ===== src/Log.antt =====
-- src/bgp_syslog.cpp and the command of cli/bgp_cli.cpp for it: the log of updates, as a line of a
-- file or as datagrams to the host of the peer. What inet_aton reads, socket() returns, and whether
-- the file opens, is given.
pub mod Text
pub mod Sender
pub mod Printable
pub mod Port
use log2bgp.Base.{
  ℕ, zero, suc, ◌+◌, ◌-◌, ◌*◌, ◌/◌, ◌%◌, ◌^◌, refl, Bool, true, false, Option, none, some, List, [],
  ◌∷◌, ◌++◌, ltb, ◌==◌, if◌then◌else◌, Result, ok, fault, ◌>>=◌, read_out_of_bounds,
}
use log2bgp.Base.Text.{codes, decimal}
use log2bgp.Base.Words.{ℤ, pos, negsuc}
use log2bgp.Msg.{Update, AsPathSegment, AggregatorSegment, CommunitySegment}
use log2bgp.Peer.{Peer}
use log2bgp.Bgp.{Bgp, NlriParse}
use log2bgp.OrderedMap.{OrderedMap, KeyOrder, find, insert}
use log2bgp.Threads.{get_peer_by_str_ip}
use log2bgp.Alias.{
  translate_as_path, translate_med, translate_local_pref, translate_community_value,
  translate_bgp_id, translate_ipv4_next_hop, translate_aggregator,
}
use log2bgp.Api.Json.{origin_code_text}
use log2bgp.Cli.Numbers.{read_digits}
use log2bgp.Cli.Settings.{token, no_peer}
use log2bgp.Log.Text.{update_text}
use log2bgp.Log.Sender.{htons, UdpSender, udp_sender, configure, Datagram, write}

-- The senders by the id of the peer, what they have sent, and the lines of the file.
pub record Log : Type 0 where
  pub udp_map : OrderedMap ℕ UdpSender
  pub sent : List Datagram
  pub file : List ℕ

-- udp_sort.
unfoldable pub udp_sort : KeyOrder ℕ
udp_sort = record { before = ltb; rank = λ n. n; before_rank = λ a b. refl }

-- The end of translate_and_dump_update.
unfoldable pub deliver : Bool → ℕ → List ℕ → Option UdpSender → Log → Log
unfolding write udp_sort
deliver opens bgp_id text none l =
    if opens then record l { file = l.file ++ (text ++ codes "\n") } else l
deliver opens bgp_id text (some s) l = record l {
  udp_map = insert udp_sort bgp_id (write text s).1 l.udp_map;
  sent = l.sent ++ ((write text s).0 ∷ []);
}

-- bgp_syslog::translate_and_dump_update.
unfoldable pub translate_and_dump_update :
    (ℕ → List ℕ) → ℕ → List ℕ → Bool → NlriParse → Update → Bgp → Log → Result Log
unfolding update_text deliver udp_sort
translate_and_dump_update ip_to_string beyond time_stamp opens flag u b l = do
  text ← update_text ip_to_string beyond b.thread_q time_stamp flag u
  ok (deliver opens u.nlri.bgp_id text (find udp_sort u.nlri.bgp_id l.udp_map) l)

-- The sender that operator[] of the map finds or adds.
unfoldable pub sender_of : Option UdpSender → UdpSender
sender_of none = udp_sender
sender_of (some s) = s

-- bgp_syslog::add_dest_host.
unfoldable pub add_dest_host : (List ℕ → Option ℕ) → ℤ → ℕ → List ℕ → ℕ → Log → Log
unfolding sender_of configure udp_sort
add_dest_host inet_aton socket ipv4 host port l =
    let s = sender_of (find udp_sort ipv4 l.udp_map) in
    record l {
      udp_map = insert udp_sort ipv4 (configure inet_aton socket ipv4 host port s) l.udp_map;
    }

-- string_to_uint16_t, and string_to_ip with what the stack held for a text that is no address.
unfoldable pub fits16 : ℕ → ℕ
fits16 n = if ltb n (2 ^ 16) then n else 0

unfoldable pub string_to_uint16_t : List ℕ → ℕ
unfolding fits16
string_to_uint16_t [] = 0
string_to_uint16_t (c ∷ t) =
    if c == b'-'
    then (2 ^ 16 - fits16 (read_digits 0 t)) % 2 ^ 16
    else if c == b'+'
    then fits16 (read_digits 0 t)
    else fits16 (read_digits 0 (c ∷ t))

unfoldable pub string_to_ip : (List ℕ → Option ℕ) → ℕ → List ℕ → ℕ
string_to_ip inet_aton stack [] = 0
string_to_ip inet_aton stack (c ∷ t) = elim (inet_aton (c ∷ t)) [ none ↦ stack | some a ↦ a ]

-- set_peer_logging: the log of the peer that tokens[1] names goes to the host tokens[4] at the port
-- tokens[5].
unfoldable pub set_logging_at :
    (List ℕ → Option ℕ) → ℕ → ℤ → List (List ℕ) → List ℕ → Option Peer → Log → Result (List ℕ × Log)
unfolding token no_peer string_to_ip string_to_uint16_t htons add_dest_host
set_logging_at inet_aton stack socket tokens ip none l = ok (no_peer ip, l)
set_logging_at inet_aton stack socket tokens ip (some p) l = do
  host ← token tokens 4
  if string_to_ip inet_aton stack host == 0
      then ok (codes "% " ++ (host ++ codes " is not a valid host address\n"), l)
      else (token tokens 5 >>= λ port.
          ok ([], add_dest_host inet_aton socket p.bgp_id host (htons (string_to_uint16_t port)) l))

unfoldable pub set_peer_logging :
    (List ℕ → Option ℕ) → ℕ → ℤ → List (List ℕ) → Bgp → Log → Result (List ℕ × Log)
unfolding token set_logging_at get_peer_by_str_ip
set_peer_logging inet_aton stack socket tokens b l = do
  ip ← token tokens 1
  set_logging_at inet_aton stack socket tokens ip (get_peer_by_str_ip ip b.thread_q) l
