-- ===== src/Log/Text.antt =====
-- src/bgp_syslog.cpp: the line that translate_and_dump_update makes of an update. The time, the text of
-- an address, and the two bytes of memory behind the value of a community are given. A path is taken to
-- have an array, as the messages are decoded.
use log2bgp.Base.{
  ℕ, zero, suc, Option, none, some, List, [], ◌∷◌, ◌++◌, ◌==◌, if◌then◌else◌, Result, ok, fault,
  ◌>>=◌, read_out_of_bounds,
}
use log2bgp.Base.Text.{codes, decimal}
use log2bgp.Msg.{Update, AsPathSegment, AggregatorSegment, CommunitySegment}
use log2bgp.Peer.{Peer}
use log2bgp.Bgp.{NlriParse}
use log2bgp.Alias.{
  translate_as_path, translate_med, translate_local_pref, translate_community_value,
  translate_bgp_id, translate_ipv4_next_hop, translate_aggregator,
}
use log2bgp.Api.Json.{origin_code_text}

-- The first `count` elements of an array, with a text between them.
unfoldable pub joined {ℓ} : {A : Type ℓ} → List ℕ → (A → List ℕ) → ℕ → List A → Result (List ℕ)
joined between text zero values = ok []
joined between text (suc count) [] = fault read_out_of_bounds
joined between text (suc count) (v ∷ values) = joined between text count values >>= λ rest.
    ok (text v ++ ((if count == 0 then [] else between) ++ rest))

unfoldable pub msg_type_text : NlriParse → List ℕ
msg_type_text NlriParse.update = codes "%BGP-6-UPDATE"
msg_type_text NlriParse.withdraw = codes "%BGP-6-WITHDRAW"

unfoldable pub path_text : List Peer → ℕ → List ℕ → Option AsPathSegment → Result (List ℕ)
unfolding joined
path_text ps bgp_id name none = ok []
path_text ps bgp_id name (some s) =
    joined (codes "_") (λ v. translate_as_path bgp_id v ps) s.length s.seg_value >>= λ text.
    ok (name ++ (text ++ codes "|"))

unfoldable pub aggregator_text :
    (ℕ → List ℕ) → List Peer → ℕ → List ℕ → List ℕ → Option AggregatorSegment → List ℕ
aggregator_text ip_to_string ps bgp_id origin asn none = []
aggregator_text ip_to_string ps bgp_id origin asn (some a) =
    origin
    ++ (translate_aggregator ip_to_string bgp_id a.origin ps
        ++ (asn ++ translate_as_path bgp_id a.asn ps))

unfoldable pub community_entry : ℕ → List Peer → ℕ → CommunitySegment → List ℕ
community_entry beyond ps bgp_id c =
    codes "["
    ++ (translate_as_path bgp_id c.asn ps
        ++ (codes ":" ++ (translate_community_value beyond bgp_id c.value ps ++ codes "]")))

unfoldable pub communities_text :
    ℕ → List Peer → ℕ → ℕ → Option (List CommunitySegment) → Result (List ℕ)
unfolding joined community_entry
communities_text beyond ps bgp_id count none = ok []
communities_text beyond ps bgp_id count (some cs) =
    joined [] (community_entry beyond ps bgp_id) count cs >>= λ text.
    ok (codes "|community=" ++ text)

module _ (ip_to_string : ℕ → List ℕ) (beyond : ℕ) (ps : List Peer) where
  -- What stands between the paths and the communities.
  unfoldable pub fields_text : Update → List ℕ
  unfolding aggregator_text
  fields_text u =
      let i = u.nlri.bgp_id in
      codes "next_hop="
      ++ (translate_ipv4_next_hop ip_to_string i u.ipv4_next_hop ps
          ++ (codes "|med="
              ++ (translate_med i u.med ps
                  ++ (codes "|local_pref="
                      ++ (translate_local_pref i u.local_pref ps
                          ++ ((if u.atomic_aggregate == 0
                                then []
                                else codes "|atomic_aggregate=true|")
                              ++ (aggregator_text ip_to_string ps i (codes "|aggregator_origin=")
                                    (codes "|aggregator_as=") u.aggregator
                                  ++ aggregator_text ip_to_string ps i
                                      (codes "|as4_aggregator_origin=")
                                      (codes "|as4_aggregator_as=") u.as4_aggregator)))))))

  -- The line of translate_and_dump_update.
  unfoldable pub update_text : List ℕ → NlriParse → Update → Result (List ℕ)
  unfolding msg_type_text path_text fields_text communities_text origin_code_text
  update_text time_stamp flag u = do
    origin ← origin_code_text u.origin
    as_path ← path_text ps u.nlri.bgp_id (codes "|as_path=") u.as_path
    as4_path ← path_text ps u.nlri.bgp_id (codes "as4_path=") u.as4_path
    community ← communities_text beyond ps u.nlri.bgp_id u.com_seg_length u.community
    ok (
        codes " *"
        ++ (time_stamp
            ++ (codes ": flowlab:  msg_type="
                ++ (msg_type_text flag
                    ++ (codes "|peer="
                        ++ (translate_bgp_id ip_to_string u.nlri.bgp_id ps
                            ++ (codes "|origin="
                                ++ (origin
                                    ++ (as_path
                                        ++ (as4_path
                                            ++ (fields_text u
                                                ++ (community
                                                    ++ (codes "|prefix="
                                                        ++ (ip_to_string u.nlri.prefix
                                                            ++ (codes "|prefix_length="
                                                            ++ decimal
                                                            u.nlri.prefix_length)))))))))))))))
