-- ===== src/Bgp.antt =====
-- include/bgp.h and src/bgp.cpp: the state of the daemon. One thread at a time holds the lock of
-- what it changes, so the locks are not modelled. Of the update log it keeps which updates are
-- written; their text and the hosts they go to are in Log.
use log2bgp.Base.{ℕ, Bool, false, List, []}
use log2bgp.Msg.{Update}
use log2bgp.Peer.{Peer}
use log2bgp.OrderedMap.{OrderedMap}
use log2bgp.Database.{Database, PrefixEntry, db_open}

-- nlri_parse.
pub data NlriParse : Type 0 where
  update withdraw : NlriParse

pub record Bgp : Type 0 where
  pub dumper_on_off : Bool
  pub stop_and_exit_instance : Bool
  pub bgp_id : ℕ
  pub hold_time : ℕ
  pub asn : ℕ
  pub port : ℕ
  pub version : ℕ
  pub table_version : ℕ
  pub dumped : List (NlriParse × Update)
  pub adj_rib_in_wdraw_q : List Update
  pub adj_rib_in_q : List Update
  pub adj_rib_in : OrderedMap PrefixEntry Update
  pub database : Database
  pub thread_q : List Peer

-- BGP(), and init_BGP(as) up to its loop.
unfoldable pub init_bgp : ℕ → Bgp
unfolding db_open
init_bgp asn = record {
  dumper_on_off = false;
  stop_and_exit_instance = false;
  bgp_id = 0;
  hold_time = 180;
  asn = asn;
  port = 179;
  version = 4;
  table_version = 0;
  dumped = [];
  adj_rib_in_wdraw_q = [];
  adj_rib_in_q = [];
  adj_rib_in = [];
  database = db_open;
  thread_q = [];
}
