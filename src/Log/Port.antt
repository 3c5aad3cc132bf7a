-- ===== src/Log/Port.antt =====
-- cli/bgp_cli.cpp, src/bgp_syslog.cpp and include/udp_sender.h: where the updates of a peer go once
-- its log is set.
use log2bgp.Base.{
  ℕ, ◌+◌, ◌^◌, ◌≤◌, ◌<◌, ◌≡◌, refl, Bool, false, Option, some, List, [], ◌∷◌, ◌++◌, ◌==◌,
  if◌then◌else◌, Bool-cases, inl, inr, arith, ok, ◌>>=◌,
}
use log2bgp.Base.Words.{ℤ, pos}
use log2bgp.Msg.{Update}
use log2bgp.Peer.{Peer}
use log2bgp.Bgp.{Bgp, NlriParse}
use log2bgp.OrderedMap.{find}
use log2bgp.OrderedMap.Laws.{find-insert}
use log2bgp.Threads.{get_peer_by_str_ip}
use log2bgp.Cli.Numbers.{read_digits}
use log2bgp.Cli.Settings.{token}
use log2bgp.Log.{
  Log, udp_sort, deliver, translate_and_dump_update, sender_of, add_dest_host, fits16,
  string_to_uint16_t, string_to_ip, set_logging_at, set_peer_logging,
}
use log2bgp.Log.Text.{update_text}
use log2bgp.Log.Sender.{htons, UdpSender, configure, Datagram, packet, write}

htons-htons : (n : ℕ) → n < 2 ^ 16 → htons (htons n) ≡ n
unfolding htons
htons-htons n h = omega arith

fits16-short : (n : ℕ) → fits16 n < 2 ^ 16
unfolding fits16
fits16-short n = ground arith

string_to_uint16_t-short : (t : List ℕ) → string_to_uint16_t t < 2 ^ 16
unfolding string_to_uint16_t
string_to_uint16_t-short [] = omega arith
string_to_uint16_t-short (c ∷ t) = elim (Bool-cases (c == b'-')) [
  | inl e ↦ rw (e, string_to_uint16_t) (omega arith)
  | inr e ↦ elim (Bool-cases (c == b'+')) [
    | inl f ↦ rw (e, f, string_to_uint16_t) (fits16-short (read_digits 0 t))
    | inr f ↦ rw (e, f, string_to_uint16_t) (fits16-short (read_digits 0 (c ∷ t)))
  ]
]

find-add_dest_host :
    (inet_aton : List ℕ → Option ℕ) (socket : ℤ) (i : ℕ) (host : List ℕ) (port : ℕ) (l : Log)
    (j : ℕ)
    → find udp_sort j (add_dest_host inet_aton socket i host port l).udp_map ≡ (
        if i == j
        then some (configure inet_aton socket i host port (sender_of (find udp_sort i l.udp_map)))
        else find udp_sort j l.udp_map)
unfolding add_dest_host udp_sort
find-add_dest_host inet_aton socket i host port l j = find-insert udp_sort i j _ l.udp_map

-- The datagram of the text from the sender that the command has set.
abbrev pub sent_to : ℕ → List ℕ → ℕ → List ℕ → UdpSender → Datagram
sent_to n port a text s = record {
  socket = pos n;
  sin_port = string_to_uint16_t port;
  sin_addr = a;
  payload = packet (s.sequence + 1) text;
}

-- What the command gives to the map.
abbrev set_port : List ℕ → ℕ
set_port port = htons (string_to_uint16_t port)

string_to_ip-address :
    (inet_aton : List ℕ → Option ℕ) (stack d : ℕ) (host : List ℕ) (a : ℕ)
    → inet_aton (d ∷ host) ≡ some a
    → 1 ≤ a
    → (string_to_ip inet_aton stack (d ∷ host) == 0) ≡ false
unfolding string_to_ip
string_to_ip-address inet_aton stack d host a e k = ground arith

set_peer_logging-ok :
    (inet_aton : List ℕ → Option ℕ) (stack : ℕ) (socket : ℤ) (tokens : List (List ℕ)) (b : Bgp)
    (l : Log) (ip : List ℕ) (p : Peer) (d : ℕ) (host port : List ℕ) (a : ℕ)
    → token tokens 1 ≡ ok ip
    → get_peer_by_str_ip ip b.thread_q ≡ some p
    → token tokens 4 ≡ ok (d ∷ host)
    → token tokens 5 ≡ ok port
    → inet_aton (d ∷ host) ≡ some a
    → 1 ≤ a
    → set_peer_logging inet_aton stack socket tokens b l
      ≡ ok ([], add_dest_host inet_aton socket p.bgp_id (d ∷ host) (set_port port) l)
unfolding set_peer_logging set_logging_at
set_peer_logging-ok inet_aton stack socket tokens b l ip p d host port a h1 h2 h4 h5 e k =
    rw (h1, h2, h4, ◌>>=◌, string_to_ip-address inet_aton stack d host a e k, h5) refl

deliver-configured :
    (opens : Bool) (inet_aton : List ℕ → Option ℕ) (n i : ℕ) (host port text : List ℕ) (a : ℕ)
    (s : UdpSender) (c : Log)
    → inet_aton host ≡ some a
    → find udp_sort i c.udp_map ≡ some (configure inet_aton (pos n) i host (set_port port) s)
    → let e = deliver opens i text (find udp_sort i c.udp_map) c in
      (e.sent ≡ c.sent ++ (sent_to n port a text s ∷ [])) × (e.file ≡ c.file)
unfolding deliver write configure
deliver-configured opens inet_aton n i host port text a s c h e =
    rw (e, h, htons-htons (string_to_uint16_t port) (string_to_uint16_t-short port)) (refl, refl)

-- Once the command has set the log of a peer to a host whose text is an address other than 0, and
-- has got a socket, an update of this peer whose line can be written is sent as one datagram with
-- this line and the next number of the sender to this address, and not written to the file; but the
-- port of the datagram, which is in network order, is the number that was typed, in host order.
pub set_peer_logging-sent :
    (inet_aton : List ℕ → Option ℕ) (stack n : ℕ) (tokens : List (List ℕ)) (b : Bgp) (l : Log)
    (ip : List ℕ) (p : Peer) (d : ℕ) (host port : List ℕ) (a : ℕ) (ip_to_string : ℕ → List ℕ)
    (beyond : ℕ) (time_stamp : List ℕ) (opens : Bool) (flag : NlriParse) (u : Update)
    (text : List ℕ)
    → token tokens 1 ≡ ok ip
    → get_peer_by_str_ip ip b.thread_q ≡ some p
    → token tokens 4 ≡ ok (d ∷ host)
    → token tokens 5 ≡ ok port
    → inet_aton (d ∷ host) ≡ some a
    → 1 ≤ a
    → u.nlri.bgp_id ≡ p.bgp_id
    → update_text ip_to_string beyond b.thread_q time_stamp flag u ≡ ok text
    → (c : Log) × (e : Log) × (set_peer_logging inet_aton stack (pos n) tokens b l ≡ ok ([], c))
      × (translate_and_dump_update ip_to_string beyond time_stamp opens flag u b c ≡ ok e)
      × (e.sent
          ≡ l.sent ++ (sent_to n port a text (sender_of (find udp_sort p.bgp_id l.udp_map)) ∷ []))
      × (e.file ≡ l.file)
unfolding translate_and_dump_update add_dest_host
set_peer_logging-sent inet_aton stack n tokens b l ip p d host port a ip_to_string beyond time_stamp
      opens flag u text h1 h2 h4 h5 k v same w =
    let c = add_dest_host inet_aton (pos n) p.bgp_id (d ∷ host) (set_port port) l in
    let s = sender_of (find udp_sort p.bgp_id l.udp_map) in
    let found : find udp_sort p.bgp_id c.udp_map
        ≡ some (configure inet_aton (pos n) p.bgp_id (d ∷ host) (set_port port) s) =
      ground (
        arith,
        find-add_dest_host inet_aton (pos n) p.bgp_id (d ∷ host) (set_port port) l p.bgp_id,
      ) in
    let done = deliver-configured opens inet_aton n p.bgp_id (d ∷ host) port text a s c k found in
    (
      c,
      deliver opens p.bgp_id text (find udp_sort p.bgp_id c.udp_map) c,
      set_peer_logging-ok inet_aton stack (pos n) tokens b l ip p d host port a h1 h2 h4 h5 k v,
      rw (w, same) refl,
      done.0,
      done.1,
    )
