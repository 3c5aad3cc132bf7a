-- ===== src/Decode/Attrib.antt =====
-- src/bgp_update.cpp: the path attributes of an UPDATE message.
pub mod Encode
pub mod Places
pub mod RoundTrip
use log2bgp.Base.{
  ℕ, zero, suc, ◌+◌, ◌-◌, ◌*◌, ◌/◌, ◌%◌, ◌^◌, Bool, true, false, Option, none, some, List, [], ◌∷◌,
  ltb, leb, ◌==◌, if◌then◌else◌, Result, ok, fault, no_fuel, write_out_of_bounds, ensure, ◌>>=◌,
  ◌>>◌,
}
use log2bgp.Msg.{
  Update, AsPathSegment, AggregatorSegment, CommunitySegment, PathAttrib, path_attrib, origin,
  as_path, next_hop, multi_exit_disc, local_pref, atomic_aggregate, aggregator, community,
  originator, cluster_list, mp_reach_nlri, mp_unreach_nlri, as4_path, as4_aggregator, other,
}
use log2bgp.Decode.Buffer.{byte_at, be16, be32, copy_u32}

-- The position `i` is that of the last byte read.
pub record Cursor : Type 0 where
  pub i : ℕ
  pub read_len : ℕ
  pub update : Update

-- i += n, read_len += n; read_len is a uint16_t.
abbrev pub advance : ℕ → Update → Cursor → Cursor
advance n u c = record { i = c.i + n; read_len = (c.read_len + n) % 2 ^ 16; update = u }

-- The values of parse_as_path, two bytes each, and of parse_as4_path, four bytes each.
unfoldable pub values16 : List ℕ → ℕ → ℕ → Result (List ℕ)
values16 packet offset zero = ok []
values16 packet offset (suc n) = do
  v ← be16 packet (offset + 1)
  vs ← values16 packet (offset + 2) n
  ok (v ∷ vs)

unfoldable pub values32 : List ℕ → ℕ → ℕ → Result (List ℕ)
values32 packet offset zero = ok []
values32 packet offset (suc n) = do
  v ← be32 packet (offset + 1)
  vs ← values32 packet (offset + 4) n
  ok (v ∷ vs)

-- parse_as_path: the first segment of the path.
unfoldable pub parse_as_path : List ℕ → ℕ → Update → Result Update
unfolding values16
parse_as_path packet offset u = do
  seg_type ← byte_at packet (offset + 1)
  n ← byte_at packet (offset + 2)
  vs ← values16 packet (offset + 2) n
  ok (record u { as_path = some (record { seg_type = seg_type; length = n; seg_value = vs }) })

-- parse_as4_path.
unfoldable pub parse_as4_path : List ℕ → ℕ → Update → Result Update
unfolding values32
parse_as4_path packet offset u = do
  seg_type ← byte_at packet (offset + 1)
  n ← byte_at packet (offset + 2)
  vs ← values32 packet (offset + 2) n
  ok (record u { as4_path = some (record { seg_type = seg_type; length = n; seg_value = vs }) })

unfoldable pub communities : List ℕ → ℕ → ℕ → Result (List CommunitySegment)
communities packet offset zero = ok []
communities packet offset (suc n) = do
  asn ← be16 packet (offset + 1)
  value ← be16 packet (offset + 3)
  cs ← communities packet (offset + 4) n
  ok (record { asn = asn; value = value } ∷ cs)

-- parse_community, for an attribute of `n` bytes.
unfoldable pub parse_community : List ℕ → ℕ → ℕ → Update → Result Update
unfolding communities
parse_community packet offset n u = do
  cs ← communities packet offset (n / 4)
  ok (record u { com_seg_length = n / 4; community = some cs })

-- A two-byte AS and the address of its router, in an attribute of `n` bytes; n - 2 is a size_t.
unfoldable pub parse_aggregator : List ℕ → ℕ → ℕ → Update → Result Update
parse_aggregator packet i n u = do
  asn ← be16 packet (i + 1)
  ensure (leb 2 n) write_out_of_bounds
  router ← copy_u32 0 packet (i + 3) (n - 2)
  ok (record u { aggregator = some (record { asn = asn; origin = router }) })

unfoldable pub parse_as4_aggregator : List ℕ → ℕ → ℕ → Update → Result Update
parse_as4_aggregator packet i n u = do
  asn ← be32 packet (i + 1)
  ensure (leb 4 n) write_out_of_bounds
  router ← copy_u32 0 packet (i + 5) (n - 4)
  ok (record u { as4_aggregator = some (record { asn = asn; origin = router }) })

-- The cases of the switch for an attribute of `n` bytes, n not 0.
unfoldable pub parse_value : PathAttrib → ℕ → List ℕ → Cursor → Result Cursor
unfolding parse_as_path parse_as4_path parse_community parse_aggregator parse_as4_aggregator
parse_value origin n packet c = do
  v ← byte_at packet (c.i + 1)
  ok (advance 1 (record c.update { origin = v }) c)
parse_value as_path n packet c = do u ← parse_as_path packet c.i c.update; ok (advance n u c)
parse_value next_hop n packet c = do
  v ← copy_u32 c.update.ipv4_next_hop packet (c.i + 1) n
  ok (advance n (record c.update { ipv4_next_hop = v }) c)
parse_value multi_exit_disc n packet c = do
  v ← be32 packet (c.i + 1)
  ok (advance n (record c.update { med = v }) c)
parse_value local_pref n packet c = do
  v ← be32 packet (c.i + 1)
  ok (advance n (record c.update { local_pref = v }) c)
parse_value atomic_aggregate n packet c =
    ok (record c { update = record c.update { atomic_aggregate = 1 } })
parse_value aggregator n packet c = do
  u ← parse_aggregator packet c.i n c.update
  ok (advance n u c)
parse_value community n packet c = do u ← parse_community packet c.i n c.update; ok (advance n u c)
parse_value as4_path n packet c = do u ← parse_as4_path packet c.i c.update; ok (advance n u c)
parse_value as4_aggregator n packet c = do
  u ← parse_as4_aggregator packet c.i n c.update
  ok (advance n u c)
parse_value originator n packet c = ok (advance n c.update c)
parse_value cluster_list n packet c = ok (advance n c.update c)
parse_value mp_reach_nlri n packet c = ok (advance n c.update c)
parse_value mp_unreach_nlri n packet c = ok (advance n c.update c)
parse_value (other code) n packet c = ok (advance n c.update c)

-- An attribute of no bytes: all cases break at once but atomic_aggregate, which always has none.
unfoldable pub parse_empty : PathAttrib → Cursor → Cursor
parse_empty atomic_aggregate c = record c { update = record c.update { atomic_aggregate = 1 } }
parse_empty _ c = c

-- The body of the loop over the attributes.
unfoldable pub parse_attrib : List ℕ → Cursor → Result Cursor
unfolding parse_value parse_empty
parse_attrib packet c = do
  flags ← byte_at packet (c.i + 1)
  code ← byte_at packet (c.i + 2)
  n ← byte_at packet (c.i + 3)
  if n == 0
      then ok (parse_empty (path_attrib code) (advance 3 c.update c))
      else parse_value (path_attrib code) n packet (advance 3 c.update c)

-- for (; read_len < path_attrib_len;).
unfoldable pub parse_attribs : ℕ → List ℕ → ℕ → Cursor → Result Cursor
unfolding parse_attrib
parse_attribs zero packet path_attrib_len c = fault no_fuel
parse_attribs (suc fuel) packet path_attrib_len c = elim (ltb c.read_len path_attrib_len) [
  | false ↦ ok c
  | true ↦ parse_attrib packet c >>= λ c'. parse_attribs fuel packet path_attrib_len c'
]
