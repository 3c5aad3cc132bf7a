-- ===== src/Log/Printable.antt =====
-- src/bgp_syslog.cpp: the updates whose line can be written.
use log2bgp.Log.Sender.{UdpSender, packet}
use log2bgp.Base.{
  ◌+◌, if◌then◌else◌, ℕ, ◌≡◌, Bool, ◌&&◌, Option, none, some, List, [], ◌∷◌, ◌++◌, ltb,
}
use log2bgp.Base.Text.{codes}
use log2bgp.Msg.{Update}
use log2bgp.Peer.{Peer}
use log2bgp.Bgp.{Bgp}
use log2bgp.Api.Json.Returns.{path_full, communities_full}
use log2bgp.Log.{Log}

unfoldable pub is_loggable : Update → Bool
is_loggable u =
    ltb u.origin 3
    && (path_full u.as_path
        && (path_full u.as4_path && communities_full u.com_seg_length u.community))

-- What the log has gained: the datagram of the sender of the peer, if it has one, and else the line in
-- the file, if the file opens.
abbrev pub Delivered : Bool → List ℕ → Option UdpSender → Log → Log → Type 0
Delivered opens text none l e =
    (e.sent ≡ l.sent) × (e.file ≡ (if opens then l.file ++ (text ++ codes "\n") else l.file))
Delivered opens text (some s) l e =
    (e.sent
      ≡ l.sent
        ++ (record {
          socket = s.socket;
          sin_port = s.sin_port;
          sin_addr = s.sin_addr;
          payload = packet (s.sequence + 1) text;
        }
            ∷ []))
    × (e.file ≡ l.file)
