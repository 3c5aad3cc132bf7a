-- ===== src/Database/Record.antt =====
-- src/bgp_database.cpp: one record of the history file, as db_insert writes it and db_get_entries
-- reads it. An attribute is its marker, a uint32_t, and the bytes of its fields.
pub mod Reads
pub mod Turns
pub mod RoundTrip
use log2bgp.Base.{
  ℕ, zero, suc, Bool, true, false, Option, none, some, List, [], ◌∷◌, ◌++◌, take, ltb, ◌==◌,
  if◌then◌else◌,
}
use log2bgp.Base.Bytes.{Reader, pure, ◌>>=◌, le_bytes, read_le}
use log2bgp.Msg.{
  Update, AsPathSegment, AggregatorSegment, CommunitySegment, Nlri, empty_update, empty_nlri,
}

-- The markers, namespace dbase_attrib.
abbrev pub origin_mark : ℕ
origin_mark = 0xFFFFFF01

abbrev pub as_path_mark : ℕ
as_path_mark = 0xFFFFFF02

abbrev pub next_hop_mark : ℕ
next_hop_mark = 0xFFFFFF03

abbrev pub multi_exit_disc_mark : ℕ
multi_exit_disc_mark = 0xFFFFFF04

abbrev pub local_pref_mark : ℕ
local_pref_mark = 0xFFFFFF05

abbrev pub atomic_aggregate_mark : ℕ
atomic_aggregate_mark = 0xFFFFFF06

abbrev pub aggregator_mark : ℕ
aggregator_mark = 0xFFFFFF07

abbrev pub community_mark : ℕ
community_mark = 0xFFFFFF08

abbrev pub as4_path_mark : ℕ
as4_path_mark = 0xFFFFFF11

abbrev pub as4_aggregator_mark : ℕ
as4_aggregator_mark = 0xFFFFFF12

abbrev pub addr_family_mark : ℕ
addr_family_mark = 0xFFFFFF13

abbrev pub addr_family_id_mark : ℕ
addr_family_id_mark = 0xFFFFFF14

abbrev pub nlri_mark : ℕ
nlri_mark = 0xFFFFFF15

abbrev pub end_of_record : ℕ
end_of_record = 0xFFFFFFFF

pub write_aggregator : ℕ → Option AggregatorSegment → List ℕ
write_aggregator mark none = []
write_aggregator mark (some a) = le_bytes 4 mark ++ (le_bytes 4 a.asn ++ le_bytes 4 a.origin)

pub write_values : List ℕ → List ℕ
write_values [] = []
write_values (v ∷ vs) = le_bytes 4 v ++ write_values vs

pub write_path : ℕ → Option AsPathSegment → List ℕ
write_path mark none = []
write_path mark (some s) =
    le_bytes 4 mark
    ++ (le_bytes 1 s.length ++ (le_bytes 1 s.seg_type ++ write_values (take s.length s.seg_value)))

pub write_atomic : ℕ → List ℕ
write_atomic zero = []
write_atomic (suc n) = le_bytes 4 atomic_aggregate_mark

pub write_communities : List CommunitySegment → List ℕ
write_communities [] = []
write_communities (c ∷ cs) = le_bytes 4 c.asn ++ (le_bytes 4 c.value ++ write_communities cs)

pub write_community : ℕ → Option (List CommunitySegment) → List ℕ
write_community n none = []
write_community n (some cs) =
    le_bytes 4 community_mark ++ (le_bytes 1 n ++ write_communities (take n cs))

pub write_nlri : Nlri → List ℕ
write_nlri n =
    le_bytes 4 nlri_mark
    ++ (le_bytes 8 n.age
        ++ (le_bytes 4 n.bgp_id
            ++ (le_bytes 8 n.last_withdraw_time
                ++ (le_bytes 4 n.prefix
                    ++ (le_bytes 4 n.prefix_highest
                        ++ (le_bytes 1 n.prefix_length
                            ++ (le_bytes 2 n.received
                                ++ (le_bytes 4 n.subnet_mask ++ le_bytes 2 n.withdrawn))))))))

-- An attribute with one field of `n` bytes.
pub write_field : ℕ → ℕ → ℕ → List ℕ
write_field mark n v = le_bytes 4 mark ++ le_bytes n v

-- The writes of db_insert, in order.
unfoldable pub write_record : Update → List ℕ
unfolding write_aggregator write_values write_path write_atomic write_communities write_community
    write_nlri write_field
write_record u =
    write_field addr_family_mark 2 u.addr_family
    ++ (write_field addr_family_id_mark 1 u.addr_family_id
        ++ (write_aggregator aggregator_mark u.aggregator
            ++ (write_aggregator as4_aggregator_mark u.as4_aggregator
                ++ (write_path as4_path_mark u.as4_path
                    ++ (write_path as_path_mark u.as_path
                        ++ (write_atomic u.atomic_aggregate
                            ++ (write_community u.com_seg_length u.community
                                ++ (write_field next_hop_mark 4 u.ipv4_next_hop
                                    ++ (write_field local_pref_mark 4 u.local_pref
                                        ++ (write_field multi_exit_disc_mark 4 u.med
                                            ++ (write_nlri u.nlri
                                                ++ (write_field origin_mark 1 u.origin
                                                    ++ le_bytes 4 end_of_record))))))))))))

pub read_aggregator : Reader AggregatorSegment
read_aggregator = do
  asn ← read_le 4
  origin ← read_le 4
  pure (record { asn = asn; origin = origin })

pub read_values : ℕ → Reader (List ℕ)
read_values zero = pure []
read_values (suc n) = do v ← read_le 4; vs ← read_values n; pure (v ∷ vs)

pub read_path : Reader AsPathSegment
read_path = do
  n ← read_le 1
  seg_type ← read_le 1
  values ← read_values n
  pure (record { seg_type = seg_type; length = n; seg_value = values })

pub read_communities : ℕ → Reader (List CommunitySegment)
read_communities zero = pure []
read_communities (suc n) = do
  asn ← read_le 4
  value ← read_le 4
  cs ← read_communities n
  pure (record { asn = asn; value = value } ∷ cs)

pub read_nlri : Nlri → Reader Nlri
read_nlri n = do
  age ← read_le 8
  bgp_id ← read_le 4
  last_withdraw_time ← read_le 8
  prefix ← read_le 4
  prefix_highest ← read_le 4
  prefix_length ← read_le 1
  received ← read_le 2
  subnet_mask ← read_le 4
  withdrawn ← read_le 2
  pure (record {
    bgp_id = bgp_id;
    prefix = prefix;
    prefix_highest = prefix_highest;
    subnet_mask = subnet_mask;
    prefix_length = prefix_length;
    withdrawn = withdrawn;
    received = received;
    age = age;
    last_withdraw_time = last_withdraw_time;
  })

-- The switch on the marker. An attribute that is never written, or is unknown, takes no bytes.
unfoldable pub read_attrib : ℕ → Update → Reader Update
unfolding read_aggregator read_values read_path read_communities read_nlri
read_attrib code u =
    if code == origin_mark
    then (do v ← read_le 1; pure (record u { origin = v }))
    else if code == as_path_mark
    then (do s ← read_path; pure (record u { as_path = some s }))
    else if code == next_hop_mark
    then (do v ← read_le 4; pure (record u { ipv4_next_hop = v }))
    else if code == multi_exit_disc_mark
    then (do v ← read_le 4; pure (record u { med = v }))
    else if code == local_pref_mark
    then (do v ← read_le 4; pure (record u { local_pref = v }))
    else if code == atomic_aggregate_mark
    then pure (record u { atomic_aggregate = 1 })
    else if code == aggregator_mark
    then (do a ← read_aggregator; pure (record u { aggregator = some a }))
    else if code == community_mark
    then (do
      n ← read_le 1
      cs ← read_communities n
      pure (record u { com_seg_length = n; community = some cs }))
    else if code == as4_path_mark
    then (do s ← read_path; pure (record u { as4_path = some s }))
    else if code == as4_aggregator_mark
    then (do a ← read_aggregator; pure (record u { as4_aggregator = some a }))
    else if code == addr_family_mark
    then (do v ← read_le 2; pure (record u { addr_family = v }))
    else if code == addr_family_id_mark
    then (do v ← read_le 1; pure (record u { addr_family_id = v }))
    else if code == nlri_mark
    then (do n ← read_nlri u.nlri; pure (record u { nlri = n }))
    else pure u

-- What the loop does after the attribute of marker `code`: `next` is the next round.
continue_unless_end :
    (Update → Reader Update) → ℕ → Option (Update × List ℕ) → Option (Update × List ℕ)
continue_unless_end next code none = none
continue_unless_end next code (some (u, r)) = elim (code == end_of_record) [
  | true ↦ some (u, r)
  | false ↦ next u r
]

read_round : (Update → Reader Update) → Update → Option (ℕ × List ℕ) → Option (Update × List ℕ)
unfolding continue_unless_end
read_round next u none = none
read_round next u (some (code, r)) = continue_unless_end next code (read_attrib code u r)

-- The loop over the attributes of a record. `none`: the file ended first, where the source loops on.
unfoldable pub read_attribs : ℕ → Update → Reader Update
unfolding read_round
read_attribs zero u r = none
read_attribs (suc fuel) u r = read_round (read_attribs fuel) u (read_le 4 r)
