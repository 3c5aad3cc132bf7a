-- ===== src/Tests/Log.antt =====
-- src/bgp_syslog.cpp and cli/bgp_cli.cpp: the log of a neighbor, set and written.
use log2bgp.Base.{ℕ, ◌+◌, ◌≡◌, refl, true, Option, some, List, [], ◌∷◌, ◌++◌, Result, ok, arith}
use log2bgp.Base.Text.{codes}
use log2bgp.Base.Words.{pos}
use log2bgp.OrderedMap.{find}
use log2bgp.Peer.{Peer}
use log2bgp.Bgp.{Bgp, NlriParse}
use log2bgp.Log.{Log, udp_sort, sender_of, set_peer_logging, translate_and_dump_update}
use log2bgp.Log.Sender.{htons}
use log2bgp.Log.Text.{update_text}
use log2bgp.Log.Port.{sent_to, set_peer_logging-sent}
use log2bgp.Tests.Data.{daemon, neighbor, one_update}

abbrev no_log : Log
no_log = record { udp_map = []; sent = []; file = [] }

-- 10.0.0.1, as read and as printed.
abbrev inet_aton : List ℕ → Option ℕ
inet_aton t = some 16777226

abbrev ip_to_string : ℕ → List ℕ
ip_to_string a = codes "10.0.0.1"

abbrev logged_neighbor : Peer
logged_neighbor = record neighbor { p_ip = codes "10.0.0.1" }

abbrev logged_daemon : Bgp
logged_daemon = record daemon { thread_q = logged_neighbor ∷ [] }

abbrev words : List (List ℕ)
words =
    codes "neighbor"
    ∷ codes "10.0.0.1"
    ∷ codes "logging"
    ∷ codes "host"
    ∷ codes "10.0.0.1"
    ∷ codes "9000"
    ∷ []

abbrev line : List ℕ
line =
    codes
      " *now: flowlab:  msg_type=%BGP-6-UPDATE|peer=10.0.0.1|origin=inext_hop=10.0.0.1|med=5|local_pref=0|prefix=10.0.0.1|prefix_length=24"

set_peer_logging-sent_example :
    (c : Log) × (e : Log) × (set_peer_logging inet_aton 0 (pos 6) words logged_daemon no_log
      ≡ ok ([], c))
    × (translate_and_dump_update ip_to_string 0
          (codes "now")
          true
          NlriParse.update
          one_update
          logged_daemon
          c
        ≡ ok e)
    × (e.sent
        ≡ [] ++ (sent_to 6 (codes "9000") 16777226 line (sender_of (find udp_sort 7 [])) ∷ []))
    × (e.file ≡ [])
unfolding log2bgp.Cli.Settings.token log2bgp.Base.get_elem? log2bgp.Threads.get_peer_by_str_ip
    log2bgp.Log.Text.update_text log2bgp.Alias.translate_bgp_id
    log2bgp.Alias.translate_ipv4_next_hop log2bgp.Alias.translate_med log2bgp.Base.Text.decimal
    log2bgp.Alias.translate_local_pref
set_peer_logging-sent_example =
    set_peer_logging-sent inet_aton 0 6 words logged_daemon no_log (codes "10.0.0.1")
      logged_neighbor b'1' (codes "0.0.0.1") (codes "9000") 16777226 ip_to_string 0 (codes "now")
      true NlriParse.update one_update line refl refl refl refl refl (omega arith) refl refl

-- The port 9000 is sent as 10275.
htons_9000 : htons 9000 ≡ 10275
unfolding htons
htons_9000 = refl
