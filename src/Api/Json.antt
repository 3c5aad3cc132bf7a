-- ===== src/Api/Json.antt =====
-- api/bgp_api.cpp: jsonify_entry and api_get_prefix. The text of a time, of an address, and what
-- inet_aton reads are given, as are the two bytes of memory behind the value of a community.
pub mod Returns
use log2bgp.Base.{
  ℕ, zero, suc, ◌+◌, ◌*◌, ◌-◌, ◌%◌, ◌^◌, Bool, true, false, Option, none, some, List, [], ◌∷◌, ◌++◌,
  length, get_elem?, ltb, ◌==◌, if◌then◌else◌, Result, ok, fault, ◌>>=◌, or_fault,
  read_out_of_bounds, null_pointer, no_fuel,
}
use log2bgp.Base.Text.{codes, decimal}
use log2bgp.Base.Words.{ntohl}
use log2bgp.Msg.{Update, Nlri, AsPathSegment, AggregatorSegment, CommunitySegment}
use log2bgp.Peer.{Peer}
use log2bgp.Rib.{Rib}
use log2bgp.Database.{Database, db_get_entries}
use log2bgp.Threads.{same_text}
use log2bgp.Alias.{
  peer_doing_alias, translate_as_path, translate_community_value, translate_bgp_id,
  translate_ipv4_next_hop, translate_aggregator,
}
use log2bgp.Api.Match.{prefix_matches}

-- The loops over the first `count` elements of an array, with a comma between them.
unfoldable pub elements {ℓ} : {A : Type ℓ} → (A → List ℕ) → ℕ → List A → Result (List ℕ)
elements text zero values = ok []
elements text (suc count) [] = fault read_out_of_bounds
elements text (suc count) (v ∷ values) = elements text count values >>= λ rest.
    ok (text v ++ ((if count == 0 then [] else codes ",") ++ rest))

-- bgp_origin_code_text[origin].
unfoldable pub origin_code_text : ℕ → Result (List ℕ)
origin_code_text origin =
    or_fault (get_elem? (codes "i" ∷ codes "e" ∷ codes "?" ∷ []) origin) read_out_of_bounds

unfoldable pub truth : ℕ → List ℕ
truth n = if n == 0 then codes "false" else codes "true"

-- An array with its length before it.
unfoldable pub array : List ℕ → ℕ → List ℕ → List ℕ
array name count values =
    codes ",\""
    ++ (name
        ++ (codes "_length\":"
            ++ (decimal count
                ++ (codes ",\"" ++ (name ++ (codes "\":[" ++ (values ++ codes "]")))))))

-- An AS of the path, and one of the path of four bytes, which has a quote only before it.
unfoldable pub quoted_as : List Peer → ℕ → ℕ → List ℕ
quoted_as ps bgp_id v = codes "\"" ++ (translate_as_path bgp_id v ps ++ codes "\"")

unfoldable pub half_quoted_as : List Peer → ℕ → ℕ → List ℕ
half_quoted_as ps bgp_id v = codes "\"" ++ translate_as_path bgp_id v ps

unfoldable pub as_path_json : List Peer → ℕ → Option AsPathSegment → Result (List ℕ)
unfolding elements array quoted_as
as_path_json ps bgp_id none = ok []
as_path_json ps bgp_id (some s) = elements (quoted_as ps bgp_id) s.length s.seg_value >>= λ text.
    ok (array (codes "as_path") s.length text)

unfoldable pub as4_path_json : List Peer → ℕ → Option AsPathSegment → Result (List ℕ)
unfolding elements array half_quoted_as
as4_path_json ps bgp_id none = ok []
as4_path_json ps bgp_id (some s) =
    elements (half_quoted_as ps bgp_id) s.length s.seg_value >>= λ text.
    ok (array (codes "as4_path") s.length text)

unfoldable pub aggregator_json : (ℕ → List ℕ) → List Peer → ℕ → Option AggregatorSegment → List ℕ
aggregator_json ip_to_string ps bgp_id none = []
aggregator_json ip_to_string ps bgp_id (some a) =
    codes ",\"aggregator_str\":\""
    ++ (translate_aggregator ip_to_string bgp_id a.origin ps
        ++ (codes "\",\"aggregator_bin\":"
            ++ (decimal a.origin
                ++ (codes ",\"aggregator_as_str\":\""
                    ++ (translate_as_path bgp_id a.asn ps
                        ++ (codes "\",\"aggregator_as_bin\":" ++ decimal a.asn))))))

-- The aggregator of four bytes; its last number is the AS of the other one.
unfoldable pub as4_aggregator_json :
    (ℕ → List ℕ)
    → List Peer
    → ℕ
    → Option AggregatorSegment
    → Option AggregatorSegment
    → Result (List ℕ)
as4_aggregator_json ip_to_string ps bgp_id none other = ok []
as4_aggregator_json ip_to_string ps bgp_id (some a) other = or_fault other null_pointer >>= λ o.
    ok (
      codes ",\"as4_aggregator_str\":\""
      ++ (translate_aggregator ip_to_string bgp_id a.origin ps
          ++ (codes "\",\"as4_aggregator_bin\":"
              ++ (decimal a.origin
                  ++ (codes ",\"as4_aggregator_as_str\":\""
                      ++ (translate_as_path bgp_id a.asn ps
                          ++ (codes "\",\"as4_aggregator_as_bin\":" ++ decimal o.asn)))))))

unfoldable pub community_text : ℕ → List Peer → ℕ → CommunitySegment → List ℕ
community_text beyond ps bgp_id c =
    codes "\""
    ++ (translate_as_path bgp_id c.asn ps
        ++ (codes ":" ++ (translate_community_value beyond bgp_id c.value ps ++ codes "\"")))

unfoldable pub community_json :
    ℕ → List Peer → ℕ → ℕ → Option (List CommunitySegment) → Result (List ℕ)
unfolding elements array community_text
community_json beyond ps bgp_id zero cs = ok []
community_json beyond ps bgp_id (suc count) none = ok []
community_json beyond ps bgp_id (suc count) (some cs) =
    elements (community_text beyond ps bgp_id) (suc count) cs >>= λ text.
    ok (array (codes "community") (suc count) text)

-- What is printed between the paths and the aggregators.
unfoldable pub fields_json : (ℕ → List ℕ) → List Peer → List ℕ → Update → List ℕ
unfolding truth
fields_json ip_to_string ps origin u =
    codes ",\"origin\":\""
    ++ (origin
        ++ (codes "\",\"next_hop_str\":\""
            ++ (ip_to_string u.ipv4_next_hop
                ++ (codes "\",\"next_hop_name\":\""
                    ++ (translate_ipv4_next_hop ip_to_string u.nlri.bgp_id u.ipv4_next_hop ps
                        ++ (codes "\",\"next_hop_bin\":"
                            ++ (decimal u.ipv4_next_hop
                                ++ (codes ",\"med\":"
                                    ++ (decimal u.med
                                        ++ (codes ",\"local_pref\":"
                                            ++ (decimal u.local_pref
                                                ++ (codes ",\"atomic_aggregate\":"
                                                    ++ truth u.atomic_aggregate))))))))))))

module _ (ip_to_string time_str : ℕ → List ℕ) (beyond : ℕ) (ps : List Peer) where
  -- jsonify_entry.
  unfoldable pub jsonify_entry : Update → Result (List ℕ)
  unfolding as_path_json as4_path_json origin_code_text aggregator_json as4_aggregator_json
      community_json fields_json
  jsonify_entry u = do
    as_path ← as_path_json ps u.nlri.bgp_id u.as_path
    as4_path ← as4_path_json ps u.nlri.bgp_id u.as4_path
    origin ← origin_code_text u.origin
    as4_aggregator ← as4_aggregator_json ip_to_string ps u.nlri.bgp_id u.as4_aggregator u.aggregator
    community ← community_json beyond ps u.nlri.bgp_id u.com_seg_length u.community
    ok (
        codes "\"time_str\":\""
        ++ (time_str u.nlri.age
            ++ (codes "\",\"time_epoch\":"
                ++ (decimal u.nlri.age
                    ++ (as_path
                        ++ (as4_path
                            ++ (fields_json ip_to_string ps origin u
                                ++ (aggregator_json ip_to_string ps u.nlri.bgp_id u.aggregator
                                    ++ (as4_aggregator ++ community)))))))))
