-- ===== src/Api/Prefix.antt =====
-- api/bgp_api.cpp: api_get_prefix. What the history of a route holds is read from the file of the
-- database, whose position moves with it.
use log2bgp.Base.{
  ℕ, ◌*◌, ◌-◌, ◌%◌, ◌^◌, Bool, true, false, Option, none, some, List, [], ◌∷◌, ◌++◌, length,
  if◌then◌else◌, Result, ok, fault, ◌>>=◌, no_fuel,
}
use log2bgp.Base.Text.{codes, decimal}
use log2bgp.Base.Words.{ntohl}
use log2bgp.Msg.{Update, Nlri}
use log2bgp.Peer.{Peer}
use log2bgp.Rib.{Rib}
use log2bgp.Database.{Database, db_get_entries}
use log2bgp.Threads.{same_text}
use log2bgp.Alias.{peer_doing_alias, translate_bgp_id}
use log2bgp.Api.Match.{prefix_matches}
use log2bgp.Api.Json.{jsonify_entry}

-- htonl(0xffffffff << (32 - prefix_length)).
unfoldable pub netmask : ℕ → ℕ
netmask prefix_length = ntohl (0xffffffff * 2 ^ (32 - prefix_length) % 2 ^ 32)

-- Whether the history is asked for: by the whole word.
unfoldable pub dump_history : List (List ℕ) → Bool
unfolding same_text
dump_history (api ∷ prefix ∷ ip ∷ history ∷ []) = same_text history (codes "history")
dump_history tokens = false

module _ (ip_to_string time_str : ℕ → List ℕ) (beyond : ℕ) (ps : List Peer) where
  -- The keys of a match, before its attributes.
  unfoldable pub nlri_json : Nlri → List ℕ
  unfolding netmask
  nlri_json n =
      codes "{\"prefix\":\""
      ++ (ip_to_string n.prefix
          ++ (codes "\",\"prefix_bin\":"
              ++ (decimal n.prefix
                  ++ (codes ",\"netmask\":\""
                      ++ (ip_to_string (netmask n.prefix_length)
                          ++ (codes "\",\"netmask_bin\":"
                              ++ (decimal (netmask n.prefix_length)
                                  ++ (codes ",\"length\":"
                                      ++ (decimal n.prefix_length
                                          ++ (codes ",\"prefix_range\":\""
                                              ++ (ip_to_string n.prefix_highest
                                                  ++ (codes "\",\"prefix_range_bin\":"
                                                      ++ (decimal n.prefix_highest
                                                          ++ (codes ",\"peer\":\""
                                                            ++ (ip_to_string n.bgp_id
                                                            ++ (codes "\""
                                                            ++ (if peer_doing_alias ps
                                                            then codes ",\"peer_name\":\""
                                                            ++ (translate_bgp_id ip_to_string
                                                            n.bgp_id ps
                                                            ++ codes "\",")
                                                            else codes ",")))))))))))))))))

  -- The loop over the records of the history.
  unfoldable pub records_json : List Update → Result (List ℕ)
  unfolding jsonify_entry
  records_json [] = ok []
  records_json (u ∷ []) = jsonify_entry ip_to_string time_str beyond ps u >>= λ text.
      ok (codes "{" ++ (text ++ codes "}"))
  records_json (u ∷ v ∷ us) = do
    text ← jsonify_entry ip_to_string time_str beyond ps u
    rest ← records_json (v ∷ us)
    ok (codes "{" ++ (text ++ (codes "}," ++ rest)))

  -- The history of a match, if asked for. A record that cannot be read ends nothing.
  unfoldable pub found_json : Option (List Update × Database) → Result (List ℕ × Database)
  unfolding records_json
  found_json none = fault no_fuel
  found_json (some (us, d)) = records_json us >>= λ text. ok (
    codes ",\"history_length\":"
        ++ (decimal (length us) ++ (codes ",\"history\":[" ++ (text ++ codes "]"))),
    d,
  )

  unfoldable pub history_json : Bool → Update → Database → Result (List ℕ × Database)
  unfolding found_json
  history_json false u d = ok ([], d)
  history_json true u d = found_json (db_get_entries u d)

  -- One match.
  unfoldable pub match_json : Bool → Update → Database → Result (List ℕ × Database)
  unfolding nlri_json jsonify_entry history_json
  match_json history u d = do
    text ← jsonify_entry ip_to_string time_str beyond ps u
    (past, d') ← history_json history u d
    ok (nlri_json u.nlri ++ (codes "\"current\":{" ++ (text ++ (codes "}" ++ past))), d')

  unfoldable pub matches_json : Bool → List Update → Database → Result (List ℕ × Database)
  unfolding match_json
  matches_json history [] d = ok ([], d)
  matches_json history (u ∷ []) d = do
    (text, d') ← match_json history u d
    ok (text ++ codes "}", d')
  matches_json history (u ∷ v ∷ us) d = do
    (text, d') ← match_json history u d
    (rest, d'') ← matches_json history (v ∷ us) d'
    ok (text ++ (codes "}," ++ rest), d'')

  -- The answer for the matches of an address.
  unfoldable pub answer_json : Bool → List Update → Database → Result (List ℕ × Database)
  unfolding matches_json
  answer_json history [] d = ok (codes "{\"entries\":[{\"prefix\":\"network not in table\"}]}", d)
  answer_json history (u ∷ us) d = do
    (text, d') ← matches_json history (u ∷ us) d
    ok (codes "{\"entries\":[" ++ (text ++ codes "]}"), d')

  unfoldable pub prefix_json : Bool → Option ℕ → Rib → Database → Result (List ℕ × Database)
  unfolding answer_json prefix_matches
  prefix_json history none m d =
      ok (codes "{\"entries\":[{\"prefix\":\"c'mon, thats not even a real ip prefix\"}]}", d)
  prefix_json history (some ip) m d = answer_json history (prefix_matches ip m) d

  -- api_get_prefix.
  unfoldable pub api_get_prefix :
      (List ℕ → Option ℕ) → List (List ℕ) → Rib → Database → Result (List ℕ × Database)
  unfolding prefix_json dump_history
  api_get_prefix inet_aton (api ∷ prefix ∷ ip ∷ rest) m d =
      prefix_json (dump_history (api ∷ prefix ∷ ip ∷ rest)) (inet_aton ip) m d
  api_get_prefix inet_aton tokens m d =
      ok (codes "{\"entries\":[\"prefix\":\"invalid number of parameters\"]}", d)
