-- ===== src/Api/Json/Returns.antt =====
-- api/bgp_api.cpp: the routes that jsonify_entry can print.
use log2bgp.Base.{
  ℕ, zero, suc, ◌≡◌, refl, ◌∙◌, Bool, true, false, ◌&&◌, Option, none, some, List, [], ◌∷◌, length,
  get_elem?, leb, ltb, arith, Result, ok, fault, ◌>>=◌,
}
use log2bgp.Base.Text.{codes}
use log2bgp.Msg.{Update, AsPathSegment, AggregatorSegment, CommunitySegment}
use log2bgp.Peer.{Peer}
use log2bgp.Api.Json.{
  elements, origin_code_text, as_path_json, as4_path_json, as4_aggregator_json, community_json,
  jsonify_entry, quoted_as, half_quoted_as, array, community_text,
}

-- The code comes back with a value.
abbrev pub returns {ℓ} : {A : Type ℓ} → Result A → Bool
returns (ok v) = true
returns (fault e) = false

-- An array that has at least as many elements as its length says.
abbrev pub path_full : Option AsPathSegment → Bool
path_full none = true
path_full (some s) = leb s.length (length s.seg_value)

abbrev pub communities_full : ℕ → Option (List CommunitySegment) → Bool
communities_full count none = true
communities_full count (some cs) = leb count (length cs)

-- No aggregator of four bytes without the one of two bytes.
abbrev pub aggregators_fit : Option AggregatorSegment → Option AggregatorSegment → Bool
aggregators_fit none other = true
aggregators_fit (some a) none = false
aggregators_fit (some a) (some o) = true

unfoldable pub is_printable : Update → Bool
is_printable u =
    path_full u.as_path
    && (path_full u.as4_path
        && (ltb u.origin 3
            && (aggregators_fit u.as4_aggregator u.aggregator
                && communities_full u.com_seg_length u.community)))

-- A step that only adds to what is printed.
pub returns->>= {ℓ κ} :
    {A : Type ℓ} {B : Type κ} (first : Result A) (next : A → Result B) (x y : Bool)
    → returns first ≡ x
    → ((v : A) → returns (next v) ≡ y)
    → returns (first >>= next) ≡ (x && y)
returns->>= (ok v) next x y h k = ground (arith, h, k v)
returns->>= (fault e) next x y h k = ground (arith, h)

pub returns-ok {ℓ κ} :
    {A : Type ℓ} {B : Type κ} (first : Result A) (f : A → B)
    → returns (first >>= λ v. ok (f v)) ≡ returns first
returns-ok (ok v) f = refl
returns-ok (fault e) f = refl

pub leb_zero : (n : ℕ) → true ≡ leb 0 n
leb_zero n = ground arith

returns-elements {ℓ} :
    {A : Type ℓ} (text : A → List ℕ) (count : ℕ) (values : List A)
    → returns (elements text count values) ≡ leb count (length values)
unfolding elements
returns-elements text zero values = ground arith
returns-elements text (suc count) [] = ground arith
returns-elements text (suc count) (v ∷ values) =
    returns-ok (elements text count values) _ ∙ returns-elements text count values ∙ ground arith

pub returns-origin_code_text : (origin : ℕ) → returns (origin_code_text origin) ≡ ltb origin 3
unfolding origin_code_text get_elem?
returns-origin_code_text zero = refl
returns-origin_code_text (suc zero) = refl
returns-origin_code_text (suc (suc zero)) = refl
returns-origin_code_text (suc (suc (suc n))) = ground arith

returns-as_path_json :
    (ps : List Peer) (i : ℕ) (o : Option AsPathSegment)
    → returns (as_path_json ps i o) ≡ path_full o
unfolding as_path_json
returns-as_path_json ps i none = refl
returns-as_path_json ps i (some s) =
    returns-ok (elements (quoted_as ps i) s.length s.seg_value) (array (codes "as_path") s.length)
    ∙ returns-elements (quoted_as ps i) s.length s.seg_value

returns-as4_path_json :
    (ps : List Peer) (i : ℕ) (o : Option AsPathSegment)
    → returns (as4_path_json ps i o) ≡ path_full o
unfolding as4_path_json
returns-as4_path_json ps i none = refl
returns-as4_path_json ps i (some s) =
    returns-ok (elements (half_quoted_as ps i) s.length s.seg_value)
      (array (codes "as4_path") s.length)
    ∙ returns-elements (half_quoted_as ps i) s.length s.seg_value

returns-as4_aggregator_json :
    (ip_to_string : ℕ → List ℕ) (ps : List Peer) (i : ℕ) (a o : Option AggregatorSegment)
    → returns (as4_aggregator_json ip_to_string ps i a o) ≡ aggregators_fit a o
unfolding as4_aggregator_json
returns-as4_aggregator_json ip_to_string ps i none o = refl
returns-as4_aggregator_json ip_to_string ps i (some a) none = refl
returns-as4_aggregator_json ip_to_string ps i (some a) (some o) = refl

returns-community_json :
    (beyond : ℕ) (ps : List Peer) (i n : ℕ) (o : Option (List CommunitySegment))
    → returns (community_json beyond ps i n o) ≡ communities_full n o
unfolding community_json
returns-community_json beyond ps i zero none = refl
returns-community_json beyond ps i zero (some cs) = leb_zero (length cs)
returns-community_json beyond ps i (suc n) none = refl
returns-community_json beyond ps i (suc n) (some cs) =
    returns-ok (elements (community_text beyond ps i) (suc n) cs)
      (array (codes "community") (suc n))
    ∙ returns-elements (community_text beyond ps i) (suc n) cs

-- jsonify_entry comes back exactly for the routes whose paths and communities are as long as they
-- say, whose origin is at most 2, and which have an AGGREGATOR where they have an AS4_AGGREGATOR; for
-- all others it reads outside an array or follows a null pointer.
pub returns-jsonify_entry :
    (ip_to_string time_str : ℕ → List ℕ) (beyond : ℕ) (ps : List Peer) (u : Update)
    → returns (jsonify_entry ip_to_string time_str beyond ps u) ≡ is_printable u
unfolding jsonify_entry is_printable
returns-jsonify_entry ip_to_string time_str beyond ps u =
    let i = u.nlri.bgp_id in
    returns->>= (as_path_json ps i u.as_path) _ _ _ (returns-as_path_json ps i u.as_path) (λ a.
      returns->>= (as4_path_json ps i u.as4_path) _ _ _ (returns-as4_path_json ps i u.as4_path)
        (λ b.
          returns->>= (origin_code_text u.origin) _ _ _ (returns-origin_code_text u.origin) (λ c.
            returns->>= (as4_aggregator_json ip_to_string ps i u.as4_aggregator u.aggregator) _ _ _
              (returns-as4_aggregator_json ip_to_string ps i u.as4_aggregator u.aggregator)
              (λ d.
                returns-ok (community_json beyond ps i u.com_seg_length u.community) _
                ∙ returns-community_json beyond ps i u.com_seg_length u.community))))
