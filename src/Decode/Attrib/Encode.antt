-- ===== src/Decode/Attrib/Encode.antt =====
-- src/bgp_update.cpp: the path attributes that are read, as they stand in an UPDATE message, and what
-- each sets.
use log2bgp.Base.{ℕ, ◌/◌, ◌%◌, ◌^◌, ◌<◌, some, List, [], ◌∷◌, ◌++◌, length}
use log2bgp.Base.Bytes.{le_bytes}
use log2bgp.Msg.{Update, CommunitySegment}

-- The attributes that parse_value reads into a field. Of a path only the first segment is kept; the
-- last argument is what its attribute has behind that segment.
pub data Attribute : Type 0 where
  origin next_hop med local_pref : ℕ → Attribute
  atomic_aggregate : Attribute
  as_path as4_path : ℕ → List ℕ → List ℕ → Attribute
  aggregator as4_aggregator : ℕ → ℕ → Attribute
  community : List CommunitySegment → Attribute

unfoldable pub be2 : ℕ → List ℕ
be2 n = n / 2 ^ 8 ∷ n % 2 ^ 8 ∷ []

unfoldable pub be4 : ℕ → List ℕ
be4 n = n / 2 ^ 24 ∷ n / 2 ^ 16 % 2 ^ 8 ∷ n / 2 ^ 8 % 2 ^ 8 ∷ n % 2 ^ 8 ∷ []

unfoldable pub be2s : List ℕ → List ℕ
unfolding be2
be2s [] = []
be2s (v ∷ vs) = be2 v ++ be2s vs

unfoldable pub be4s : List ℕ → List ℕ
unfolding be4
be4s [] = []
be4s (v ∷ vs) = be4 v ++ be4s vs

unfoldable pub community_bytes : List CommunitySegment → List ℕ
unfolding be2
community_bytes [] = []
community_bytes (c ∷ cs) = be2 c.asn ++ be2 c.value ++ community_bytes cs

unfoldable pub code_of : Attribute → ℕ
code_of (Attribute.origin v) = 0x01
code_of (Attribute.as_path t vs more) = 0x02
code_of (Attribute.next_hop a) = 0x03
code_of (Attribute.med n) = 0x04
code_of (Attribute.local_pref n) = 0x05
code_of Attribute.atomic_aggregate = 0x06
code_of (Attribute.aggregator n a) = 0x07
code_of (Attribute.community cs) = 0x08
code_of (Attribute.as4_path t vs more) = 0x11
code_of (Attribute.as4_aggregator n a) = 0x12

unfoldable pub value_bytes : Attribute → List ℕ
unfolding be2 be4 be2s be4s community_bytes
value_bytes (Attribute.origin v) = v ∷ []
value_bytes (Attribute.as_path t vs more) = t ∷ length vs ∷ be2s vs ++ more
value_bytes (Attribute.as4_path t vs more) = t ∷ length vs ∷ be4s vs ++ more
value_bytes (Attribute.aggregator n a) = be2 n ++ le_bytes 4 a
value_bytes (Attribute.as4_aggregator n a) = be4 n ++ le_bytes 4 a
value_bytes (Attribute.next_hop a) = le_bytes 4 a
value_bytes (Attribute.med n) = be4 n
value_bytes (Attribute.local_pref n) = be4 n
value_bytes Attribute.atomic_aggregate = []
value_bytes (Attribute.community cs) = community_bytes cs

-- The field that an attribute sets.
unfoldable pub set : Attribute → Update → Update
set (Attribute.origin v) u = record u { origin = v }
set (Attribute.as_path t vs more) u = record u {
  as_path = some (record { seg_type = t; length = length vs; seg_value = vs });
}
set (Attribute.as4_path t vs more) u = record u {
  as4_path = some (record { seg_type = t; length = length vs; seg_value = vs });
}
set (Attribute.aggregator n a) u = record u { aggregator = some (record { asn = n; origin = a }) }
set (Attribute.as4_aggregator n a) u = record u {
  as4_aggregator = some (record { asn = n; origin = a });
}
set (Attribute.next_hop a) u = record u { ipv4_next_hop = a }
set (Attribute.med n) u = record u { med = n }
set (Attribute.local_pref n) u = record u { local_pref = n }
set Attribute.atomic_aggregate u = record u { atomic_aggregate = 1 }
set (Attribute.community cs) u = record u { com_seg_length = length cs; community = some cs }

-- Values that fit their bytes.
unfoldable pub Fits : Attribute → Type 0
Fits (Attribute.next_hop a) = a < 2 ^ 32
Fits (Attribute.aggregator n a) = a < 2 ^ 32
Fits (Attribute.as4_aggregator n a) = a < 2 ^ 32
Fits (Attribute.med n) = n < 2 ^ 32
Fits (Attribute.local_pref n) = n < 2 ^ 32
Fits (Attribute.community cs) = 0 < length cs
Fits _ = Unit

-- An attribute on the wire, with its flags and a length of one byte.
unfoldable pub encode_attrib : ℕ → Attribute → List ℕ
unfolding code_of value_bytes
encode_attrib flags a = flags ∷ code_of a ∷ length (value_bytes a) ∷ value_bytes a
