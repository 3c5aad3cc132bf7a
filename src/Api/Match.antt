-- ===== src/Api/Match.antt =====
-- api/bgp_api.cpp and cli/bgp_cli.cpp: which routes answer a query.
pub mod Subnet
pub mod Origin
use log2bgp.Base.{
  ℕ, ◌+◌, ◌-◌, ◌%◌, ◌^◌, Bool, true, false, not, ◌&&◌, Option, none, some, List, [], ◌∷◌, ◌++◌,
  get_elem?, leb, ◌==◌, if◌then◌else◌, Result, ok, ◌>>=◌, or_fault, read_out_of_bounds,
}
use log2bgp.Base.Text.{codes, decimal}
use log2bgp.Cli.Numbers.{string_to_uint32_t}
use log2bgp.Msg.{Update, Nlri, AsPathSegment, assign}
use log2bgp.Rib.{Rib, memcmp_lt}

-- memcmp(&prefix, &ip) <= 0 && memcmp(&prefix_highest, &ip) >= 0.
unfoldable pub in_range : ℕ → Nlri → Bool
in_range ip n = not (memcmp_lt ip n.prefix) && not (memcmp_lt n.prefix_highest ip)

-- The loop of api_get_prefix and of show_bgp_prefix that saves a copy of each match.
unfoldable pub prefix_matches : ℕ → Rib → List Update
unfolding in_range
prefix_matches ip [] = []
prefix_matches ip ((k, u) ∷ m) =
    if in_range ip u.nlri then assign u ∷ prefix_matches ip m else prefix_matches ip m

-- seg_value[len], where `len` is the uint8_t length - 1.
unfoldable pub origin_asn : AsPathSegment → Result ℕ
origin_asn s = or_fault (get_elem? s.seg_value ((s.length + 255) % 256)) read_out_of_bounds

-- Whether the loop of api_get_all_origin_as takes a route: its length is tested first, then the last
-- AS of its path.
unfoldable pub from_path : ℕ → ℕ → ℕ → Option AsPathSegment → Result Bool
unfolding origin_asn
from_path asn length prefix_length none = ok false
from_path asn length prefix_length (some s) =
    if leb prefix_length length then (origin_asn s >>= λ origin. ok (origin == asn)) else ok false

unfoldable pub from_asn : ℕ → ℕ → Update → Result Bool
unfolding from_path
from_asn asn length u = from_path asn length u.nlri.prefix_length u.as_path

-- The prefixes and lengths that api_get_all_origin_as lists.
unfoldable pub ip_matches : ℕ → ℕ → Rib → Result (List (ℕ × ℕ))
unfolding from_asn
ip_matches asn length [] = ok []
ip_matches asn length ((k, u) ∷ m) = do
  taken ← from_asn asn length u
  rest ← ip_matches asn length m
  ok (if taken then (u.nlri.prefix, u.nlri.prefix_length) ∷ rest else rest)

-- The array of the answer, and api_get_all_origin_as of the tokens.
unfoldable pub entries : (ℕ → List ℕ) → List (ℕ × ℕ) → List ℕ
entries ip_to_string [] = []
entries ip_to_string ((ip, length) ∷ []) =
    b'"' ∷ (ip_to_string ip ++ (b'/' ∷ (decimal length ++ (b'"' ∷ []))))
entries ip_to_string ((ip, length) ∷ m ∷ ms) =
    b'"'
    ∷ (ip_to_string ip
        ++ (b'/' ∷ (decimal length ++ (b'"' ∷ b',' ∷ entries ip_to_string (m ∷ ms)))))

unfoldable pub origin_entries : (ℕ → List ℕ) → Result (List (ℕ × ℕ)) → Result (List ℕ)
unfolding entries
origin_entries ip_to_string matches = do
  ms ← matches
  ok (codes "{\"entries\":[" ++ (entries ip_to_string ms ++ codes "]}"))

unfoldable pub api_get_all_origin_as : (ℕ → List ℕ) → List (List ℕ) → Rib → Result (List ℕ)
unfolding ip_matches origin_entries
api_get_all_origin_as ip_to_string (api ∷ all ∷ asn ∷ length ∷ rest) m =
    origin_entries ip_to_string (ip_matches (string_to_uint32_t asn) (string_to_uint32_t length) m)
api_get_all_origin_as ip_to_string tokens m =
    ok (codes "{\"entries\":[\"prefix\":\"invalid number of parameters\"]}")
