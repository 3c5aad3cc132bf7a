-- ===== src/Msg.antt =====
-- include/bgp_msg.h: the codes and structures of BGP messages. A pointer that may be null is an
-- Option; an array and its null pointer are a list, empty when the length is 0.
mod Codes
unfoldable pub use Codes.*
use log2bgp.Base.{
  ℕ, zero, suc, ◌*◌, ◌-◌, ◌<◌, ◌≡◌, Bool, true, ◌&&◌, Option, none, some, List, [], ◌∷◌, take, ltb,
  ◌==◌, if◌then◌else◌,
}
use log2bgp.Base.Words.{ntohl}

pub record AsPathSegment : Type 0 where
  pub seg_type : ℕ
  pub length : ℕ
  pub seg_value : List ℕ

pub record AggregatorSegment : Type 0 where
  pub asn : ℕ
  pub origin : ℕ

pub record CommunitySegment : Type 0 where
  pub asn : ℕ
  pub value : ℕ

-- `prefix`, `prefix_highest` and `bgp_id` hold addresses in network byte order.
pub record Nlri : Type 0 where
  pub bgp_id : ℕ
  pub prefix : ℕ
  pub prefix_highest : ℕ
  pub subnet_mask : ℕ
  pub prefix_length : ℕ
  pub withdrawn : ℕ
  pub received : ℕ
  pub age : ℕ
  pub last_withdraw_time : ℕ

-- bgp_nlri(), and what memset(&nlri, 0, ...) leaves.
abbrev pub empty_nlri : Nlri
empty_nlri = record {
  bgp_id = 0;
  prefix = 0;
  prefix_highest = 0;
  subnet_mask = 0;
  prefix_length = 0;
  withdrawn = 0;
  received = 0;
  age = 0;
  last_withdraw_time = 0;
}

-- bgp_update.
pub record Update : Type 0 where
  pub flags : ℕ
  pub origin : ℕ
  pub as_path : Option AsPathSegment
  pub as4_path : Option AsPathSegment
  pub ipv4_next_hop : ℕ
  pub med : ℕ
  pub local_pref : ℕ
  pub atomic_aggregate : ℕ
  pub aggregator : Option AggregatorSegment
  pub as4_aggregator : Option AggregatorSegment
  pub com_seg_length : ℕ
  pub community : Option (List CommunitySegment)
  pub addr_family : ℕ
  pub addr_family_id : ℕ
  pub mp_nlri_nh_len : ℕ
  pub subnetwork_points_of_attachment : ℕ
  pub nlri : Nlri

-- bgp_update().
abbrev pub empty_update : Update
empty_update = record {
  flags = 0;
  origin = 0;
  as_path = none;
  as4_path = none;
  ipv4_next_hop = 0;
  med = 0;
  local_pref = 0;
  atomic_aggregate = 0;
  aggregator = none;
  as4_aggregator = none;
  com_seg_length = 0;
  community = none;
  addr_family = 0;
  addr_family_id = 0;
  mp_nlri_nh_len = 0;
  subnetwork_points_of_attachment = 0;
  nlri = empty_nlri;
}

-- The copy of a segment: the type, the length and `length` values.
copy_path : Option AsPathSegment → Option AsPathSegment
copy_path none = none
copy_path (some s) = some (record s { seg_value = take s.length s.seg_value })

copy_community : ℕ → Option (List CommunitySegment) → Option (List CommunitySegment)
copy_community n none = none
copy_community n (some cs) = if ltb 0 n then some (take n cs) else none

-- assign(): what the copy constructor and operator= make of `orig`.
unfoldable pub assign : Update → Update
unfolding copy_path copy_community
assign orig = record orig {
  as4_path = copy_path orig.as4_path;
  as_path = copy_path orig.as_path;
  community = copy_community orig.com_seg_length orig.community;
}
