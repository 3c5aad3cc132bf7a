-- ===== src/Tests/Data.antt =====
-- Test data: a daemon with one neighbor, and its routes.
use log2bgp.Base.{true, false, List, [], ◌∷◌}
use log2bgp.Msg.{Update, empty_update, empty_nlri}
use log2bgp.Peer.{Peer, new_peer}
use log2bgp.Bgp.{Bgp}
use log2bgp.Decode.Nlri.RoundTrip.{Route}
use log2bgp.Decode.Attrib.Encode.{Attribute}
use log2bgp.Decode.Announce.{Flagged}

abbrev pub neighbor : Peer
neighbor = record new_peer { bgp_id = 7; asn = 65001 }

abbrev pub daemon : Bgp
daemon = record {
  dumper_on_off = false;
  stop_and_exit_instance = false;
  bgp_id = 9;
  hold_time = 180;
  asn = 65000;
  port = 179;
  version = 4;
  table_version = 0;
  dumped = [];
  adj_rib_in_wdraw_q = [];
  adj_rib_in_q = [];
  adj_rib_in = [];
  database = record {
    dbase = record { contents = []; position = 0; is_open = true };
    index_map = [];
    max_records = 1000;
  };
  thread_q = neighbor ∷ [];
}

-- 10.1.2.0/24 and 10.0.0.0/8.
abbrev pub two_routes : List Route
two_routes =
    record { prefix_length = 24; prefix = 131338 } ∷ record { prefix_length = 8; prefix = 10 } ∷ []

abbrev pub three_attributes : List Flagged
three_attributes =
    (0x40, Attribute.origin 0)
    ∷ (0x40, Attribute.as_path 2 (65001 ∷ 65002 ∷ []) [])
    ∷ (0x40, Attribute.next_hop 16777226)
    ∷ []

-- A route of the neighbor.
abbrev pub one_update : Update
one_update = record empty_update {
  med = 5;
  nlri = record empty_nlri { bgp_id = 7; prefix = 131338; prefix_length = 24 };
}
