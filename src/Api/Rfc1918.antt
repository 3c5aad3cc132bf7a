-- ===== src/Api/Rfc1918.antt =====
-- api/bgp_api.cpp: which prefixes are private, and the queries for the public and the private routes of
-- an AS.
pub mod Split
use log2bgp.Base.{
  ℕ, ◌+◌, ◌*◌, ◌/◌, ◌%◌, ◌^◌, ◌≤◌, ◌<◌, ◌≡◌, refl, sym, ap, ◌∙◌, Bool, true, false, not, ◌&&◌, ◌||◌,
  Option, none, some, List, [], ◌∷◌, ltb, leb, ◌==◌, if◌then◌else◌, arith, Result, ok, ◌>>=◌, All,
  Bool-cases, inl, inr,
}
use log2bgp.Base.Text.{codes}
use log2bgp.Base.Words.{ntohl, byte0, byte1, byte2, byte3}
use log2bgp.Msg.{Update, Nlri}
use log2bgp.Rib.{Rib, memcmp_lt, memcmp_lt-ntohl}
use log2bgp.Decode.Nlri.{net_mask, get_ipv4_high_range}
use log2bgp.Cli.Numbers.{string_to_uint32_t}
use log2bgp.Api.Match.{from_path, from_asn, ip_matches, origin_entries}
use log2bgp.Api.Match.Origin.{
  PathsFull, PathOk, ends_in, originates, from_path-ends_in, originated, ip_matches-PathsFull,
}

-- 10.0.0.0/8, 172.16.0.0/12 and 192.168.0.0/16, as inet_aton gives them.
abbrev pub rfc_ips : List (ℕ × ℕ)
rfc_ips = (10, 8) ∷ (172 + 16 * 256, 12) ∷ (192 + 168 * 256, 16) ∷ []

unfoldable pub block_has : ℕ → ℕ → ℕ → Bool
block_has prefix first last = not (memcmp_lt prefix first) && not (memcmp_lt last prefix)

unfoldable pub in_blocks : ℕ → List (ℕ × ℕ) → Bool
unfolding block_has
in_blocks prefix [] = false
in_blocks prefix ((ip, length) ∷ blocks) =
    block_has prefix ip (get_ipv4_high_range ip length) || in_blocks prefix blocks

unfoldable pub is_rfc1918 : ℕ → Bool
unfolding in_blocks
is_rfc1918 prefix = in_blocks prefix rfc_ips

-- Whether the loops of the two queries take a route: `wanted` is whether the private ones are asked for.
unfoldable pub of_class : Bool → Bool → Bool
of_class true private = private
of_class false private = not private

unfoldable pub class_matches : Bool → ℕ → ℕ → Rib → Result (List (ℕ × ℕ))
unfolding is_rfc1918 from_asn of_class
class_matches wanted asn length [] = ok []
class_matches wanted asn length ((k, u) ∷ m) = do
  taken ← if of_class wanted (is_rfc1918 u.nlri.prefix) then from_asn asn length u else ok false
  rest ← class_matches wanted asn length m
  ok (if taken then (u.nlri.prefix, u.nlri.prefix_length) ∷ rest else rest)

-- api_get_public_origin_as and api_get_private_origin_as.
unfoldable pub class_origin_as : Bool → (ℕ → List ℕ) → List (List ℕ) → Rib → Result (List ℕ)
unfolding class_matches origin_entries
class_origin_as wanted ip_to_string (api ∷ all ∷ asn ∷ length ∷ rest) m =
    origin_entries ip_to_string
      (class_matches wanted (string_to_uint32_t asn) (string_to_uint32_t length) m)
class_origin_as wanted ip_to_string tokens m =
    ok (codes "{\"entries\":[\"prefix\":\"invalid number of parameters\"]}")

unfoldable pub api_get_public_origin_as : (ℕ → List ℕ) → List (List ℕ) → Rib → Result (List ℕ)
unfolding class_origin_as
api_get_public_origin_as ip_to_string tokens m = class_origin_as false ip_to_string tokens m

unfoldable pub api_get_private_origin_as : (ℕ → List ℕ) → List (List ℕ) → Rib → Result (List ℕ)
unfolding class_origin_as
api_get_private_origin_as ip_to_string tokens m = class_origin_as true ip_to_string tokens m

block_10 : ntohl (get_ipv4_high_range 10 8) ≡ 0x0AFFFFFF
unfolding ntohl get_ipv4_high_range net_mask
block_10 = refl

block_172 : ntohl (get_ipv4_high_range 4268 12) ≡ 0xAC1FFFFF
unfolding ntohl get_ipv4_high_range net_mask
block_172 = refl

block_192 : ntohl (get_ipv4_high_range 43200 16) ≡ 0xC0A8FFFF
unfolding ntohl get_ipv4_high_range net_mask
block_192 = refl

block_has-ntohl :
    (prefix first last : ℕ)
    → block_has prefix first last
      ≡ (leb (ntohl first) (ntohl prefix) && leb (ntohl prefix) (ntohl last))
unfolding block_has
block_has-ntohl prefix first last =
    ground (arith, memcmp_lt-ntohl prefix first, memcmp_lt-ntohl last prefix)

-- The private addresses of RFC 1918, by their first two bytes.
pub private_address : ℕ → ℕ → Bool
private_address a b = a == 10 || (a == 172 && (leb 16 b && ltb b 32)) || (a == 192 && b == 168)

-- The number of an address, by its bytes.
record IsAddress (a b n : ℕ) : Type 0 where
  c : ℕ
  d : ℕ
  a_fits : a < 256
  b_fits : b < 256
  c_fits : c < 256
  d_fits : d < 256
  number : n ≡ a * 2 ^ 24 + b * 2 ^ 16 + c * 2 ^ 8 + d

range_10 : (a b n : ℕ) → IsAddress a b n → (leb 0x0A000000 n && leb n 0x0AFFFFFF) ≡ (a == 10)
range_10 a b n w = ground (arith, w.number, w.b_fits, w.c_fits, w.d_fits)

range_172 :
    (a b n : ℕ)
    → IsAddress a b n
    → (leb 0xAC100000 n && leb n 0xAC1FFFFF) ≡ (a == 172 && (leb 16 b && ltb b 32))
range_172 a b n w = ground (arith, w.number, w.b_fits, w.c_fits, w.d_fits)

range_192 :
    (a b n : ℕ) → IsAddress a b n → (leb 0xC0A80000 n && leb n 0xC0A8FFFF) ≡ (a == 192 && b == 168)
range_192 a b n w = ground (arith, w.number, w.b_fits, w.c_fits, w.d_fits)

ntohl-IsAddress : (n : ℕ) → IsAddress (byte0 n) (byte1 n) (ntohl n)
unfolding ntohl byte0 byte1 byte2 byte3
ntohl-IsAddress n = record {
  c = byte2 n;
  d = byte3 n;
  a_fits = omega arith;
  b_fits = omega arith;
  c_fits = omega arith;
  d_fits = omega arith;
  number = refl;
}

block_bounds :
    (prefix first last : ℕ) (f l : ℕ)
    → ntohl first ≡ f
    → ntohl last ≡ l
    → block_has prefix first last ≡ (leb f (ntohl prefix) && leb (ntohl prefix) l)
block_bounds prefix first last f l e g =
    block_has-ntohl prefix first last
    ∙ ap (λ x. leb x (ntohl prefix) && leb (ntohl prefix) (ntohl last)) e
    ∙ ap (λ x. leb f (ntohl prefix) && leb (ntohl prefix) x) g

-- is_rfc1918 holds for the addresses that begin with 10, with 172 and 16 to 31, or with 192 and 168, in
-- the order of the bytes on the wire, and for no other.
pub is_rfc1918-private_address :
    (prefix : ℕ) → is_rfc1918 prefix ≡ private_address (byte0 prefix) (byte1 prefix)
unfolding is_rfc1918 in_blocks private_address ntohl
is_rfc1918-private_address prefix =
    let w = ntohl-IsAddress prefix in
    let e = block_bounds prefix 10 _ 0x0A000000 _ refl block_10 ∙ range_10 _ _ _ w in
    let f = block_bounds prefix 4268 _ 0xAC100000 _ refl block_172 ∙ range_172 _ _ _ w in
    let g = block_bounds prefix 43200 _ 0xC0A80000 _ refl block_192 ∙ range_192 _ _ _ w in
    ground (arith, e, f, g)
