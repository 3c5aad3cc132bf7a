-- ===== src/Cli/Show.antt =====
-- cli/bgp_cli.cpp: display_entry and show_bgp_prefix. The text of a time, of an address, and what
-- inet_aton reads are given, as are the two bytes of memory behind the value of a community.
use log2bgp.Base.{
  ℕ, zero, suc, Bool, true, false, Option, none, some, List, [], ◌∷◌, ◌++◌, length, ◌==◌,
  if◌then◌else◌, Result, ok, fault, ◌>>=◌, read_out_of_bounds, no_fuel,
}
use log2bgp.Base.Text.{codes, decimal}
use log2bgp.Msg.{Update, Nlri, AsPathSegment, AggregatorSegment, CommunitySegment}
use log2bgp.Peer.{Peer}
use log2bgp.Rib.{Rib}
use log2bgp.Database.{Database, db_get_entries}
use log2bgp.Threads.{same_text}
use log2bgp.Alias.{
  peer_doing_alias, translate_as_path, translate_med, translate_local_pref,
  translate_community_value, translate_bgp_id, translate_ipv4_next_hop, translate_aggregator,
}
use log2bgp.Api.Json.{origin_code_text}
use log2bgp.Api.Match.{prefix_matches}
use log2bgp.Cli.Settings.{token}

-- The loops over the first `count` elements of an array, with a space behind each.
unfoldable pub spaced_elements {ℓ} : {A : Type ℓ} → (A → List ℕ) → ℕ → List A → Result (List ℕ)
spaced_elements text zero values = ok []
spaced_elements text (suc count) [] = fault read_out_of_bounds
spaced_elements text (suc count) (v ∷ values) =
    spaced_elements text count values >>= λ rest. ok (text v ++ (codes " " ++ rest))

unfoldable pub display_path : List Peer → ℕ → Option AsPathSegment → Result (List ℕ)
unfolding spaced_elements
display_path ps bgp_id none = ok []
display_path ps bgp_id (some s) =
    spaced_elements (λ v. translate_as_path bgp_id v ps) s.length s.seg_value

unfoldable pub display_aggregator :
    (ℕ → List ℕ) → List Peer → ℕ → List ℕ → List ℕ → Option AggregatorSegment → List ℕ
display_aggregator ip_to_string ps bgp_id origin asn none = []
display_aggregator ip_to_string ps bgp_id origin asn (some a) =
    origin
    ++ (translate_aggregator ip_to_string bgp_id a.origin ps
        ++ (asn ++ translate_as_path bgp_id a.asn ps))

unfoldable pub display_community :
    ℕ → List Peer → ℕ → ℕ → Option (List CommunitySegment) → Result (List ℕ)
unfolding spaced_elements
display_community beyond ps bgp_id zero cs = ok []
display_community beyond ps bgp_id (suc count) none = ok []
display_community beyond ps bgp_id (suc count) (some cs) =
    spaced_elements
      (λ c.
        translate_as_path bgp_id c.asn ps
        ++ (codes ":" ++ translate_community_value beyond bgp_id c.value ps))
      (suc count) cs
    >>= λ text. ok (codes "\n\tCommunity: " ++ text)

module _ (ip_to_string time_str : ℕ → List ℕ) (beyond : ℕ) (ps : List Peer) where
  -- What is printed between the paths and the communities.
  unfoldable pub display_fields : List ℕ → Update → List ℕ
  unfolding display_aggregator
  display_fields origin u =
      let i = u.nlri.bgp_id in
      origin
      ++ (codes "\n\tNext hop: "
          ++ (translate_ipv4_next_hop ip_to_string i u.ipv4_next_hop ps
              ++ (codes " Metric: "
                  ++ (translate_med i u.med ps
                      ++ (codes " Local Pref: "
                          ++ (translate_local_pref i u.local_pref ps
                              ++ (codes " "
                                  ++ ((if u.atomic_aggregate == 0
                                        then []
                                        else codes " Atomic Aggregate: true")
                                      ++ (display_aggregator ip_to_string ps i
                                            (codes "\n\tAggregator Origin: ")
                                            (codes " Aggregator AS: ") u.aggregator
                                          ++ display_aggregator ip_to_string ps i
                                              (codes "\n\tAS4 Aggregator Origin: ")
                                              (codes " Aggregator AS4: ") u.as4_aggregator)))))))))

  -- display_entry.
  unfoldable pub display_entry : Update → Result (List ℕ)
  unfolding display_path display_community display_fields origin_code_text
  display_entry u = do
    as_path ← display_path ps u.nlri.bgp_id u.as_path
    as4_path ← display_path ps u.nlri.bgp_id u.as4_path
    origin ← origin_code_text u.origin
    community ← display_community beyond ps u.nlri.bgp_id u.com_seg_length u.community
    ok (
        codes "\tLast Modified: "
        ++ (time_str u.nlri.age
            ++ (codes " (UTC)\n\tPath: "
                ++ (as_path ++ (as4_path ++ (display_fields origin u ++ community))))))

  -- The records of the history.
  unfoldable pub display_records : List Update → Result (List ℕ)
  unfolding display_entry
  display_records [] = ok []
  display_records (u ∷ us) = do
    text ← display_entry u
    rest ← display_records us
    ok (codes "\n\n[h]" ++ (text ++ rest))

  unfoldable pub display_found : Option (List Update × Database) → Result (List ℕ × Database)
  unfolding display_records
  display_found none = fault no_fuel
  display_found (some (us, d)) = display_records us >>= λ text. ok (text, d)

  unfoldable pub display_history : Bool → Update → Database → Result (List ℕ × Database)
  unfolding display_found
  display_history false u d = ok ([], d)
  display_history true u d = display_found (db_get_entries u d)

  -- The lines before the attributes of a match.
  unfoldable pub display_nlri : Nlri → List ℕ
  display_nlri n =
      codes "\nBGP routing table entry for "
      ++ (ip_to_string n.prefix
          ++ (codes "/"
              ++ (decimal n.prefix_length
                  ++ (codes " : ("
                      ++ (ip_to_string n.prefix
                          ++ (codes " - "
                              ++ (ip_to_string n.prefix_highest
                                  ++ (codes ")\nReceived from "
                                      ++ (ip_to_string n.bgp_id
                                          ++ (if peer_doing_alias ps
                                              then codes "("
                                                ++ (translate_bgp_id ip_to_string n.bgp_id ps
                                                    ++ codes ")")
                                              else []))))))))))

  unfoldable pub display_matches : Bool → List Update → Database → Result (List ℕ × Database)
  unfolding display_nlri display_history display_entry
  display_matches history [] d = ok ([], d)
  display_matches history (u ∷ us) d = do
    text ← display_entry u
    (past, d') ← display_history history u d
    (rest, d'') ← display_matches history us d'
    ok (display_nlri u.nlri ++ (codes "\n[c]" ++ (text ++ (past ++ (codes "\n" ++ rest)))), d'')

  unfoldable pub show_matches : Bool → List Update → Database → Result (List ℕ × Database)
  unfolding display_matches
  show_matches history [] d = ok (codes "% Network not in table\n", d)
  show_matches history (u ∷ us) d = do
    (text, d') ← display_matches history (u ∷ us) d
    ok (
      codes "\nEntries: ("
          ++ (decimal (length (u ∷ us))
              ++ (codes " available)\n[c] = current"
                  ++ ((if history then codes " [h] = historical\n" else codes "\n")
                      ++ (text ++ codes "\n")))),
      d',
    )

  -- Whether the history is asked for: by the whole word.
  unfoldable pub show_history : List (List ℕ) → Bool
  unfolding same_text
  show_history (a ∷ b ∷ c ∷ ip ∷ history ∷ []) = same_text history (codes "history")
  show_history tokens = false

  unfoldable pub show_at : Bool → Option ℕ → Rib → Database → Result (List ℕ × Database)
  unfolding show_matches prefix_matches
  show_at history none m d = ok ([], d)
  show_at history (some ip) m d = show_matches history (prefix_matches ip m) d

  -- show_bgp_prefix.
  unfoldable pub show_bgp_prefix :
      (List ℕ → Option ℕ) → List (List ℕ) → Rib → Database → Result (List ℕ × Database)
  unfolding token show_at show_history
  show_bgp_prefix inet_aton tokens m d = do
    ip ← token tokens 3
    show_at (show_history tokens) (inet_aton ip) m d
