-- ===== src/Api/Match/Origin.antt =====
-- api/bgp_api.cpp: the routes that api_get_all_origin_as takes are those whose path ends in the AS.
use log2bgp.Base.{
  zero, ◌≤◌, ◌||◌, Bool-cases, inl, inr, Result, fault, ◌>>=◌, ==→eq, ℕ, suc, ◌+◌, ◌%◌, ◌<◌, ◌≡◌,
  refl, ap, ◌∙◌, Bool, true, false, ◌&&◌, Option, none, some, List, [], ◌∷◌, get_elem?, length, leb,
  ◌==◌, if◌then◌else◌, arith, ok, or_fault, read_out_of_bounds,
}
use log2bgp.Msg.{Update, AsPathSegment}
use log2bgp.Rib.{Rib}
use log2bgp.Api.Match.{origin_asn, from_path, from_asn, ip_matches}

-- The last AS of a path.
last_asn : ℕ → List ℕ → ℕ
last_asn n [] = n
last_asn n (m ∷ ns) = last_asn m ns

-- A segment holds as many numbers as its length says, and at least one.
pub record IsFull (s : AsPathSegment) : Type 0 where
  pub first : ℕ
  pub others : List ℕ
  pub numbers : s.seg_value ≡ first ∷ others
  pub counted : s.length ≡ suc (length others)
  pub short : s.length < 256

-- Every route has no path, or a path that IsFull.
abbrev pub PathOk : Option AsPathSegment → Type 0
PathOk none = Unit {0}
PathOk (some s) = IsFull s

abbrev pub PathsFull : Rib → Type 0
PathsFull [] = Unit {0}
PathsFull ((k, u) ∷ m) = PathOk u.as_path × PathsFull m

get_elem?-short : (vs : List ℕ) (i : ℕ) → length vs ≤ i → get_elem? vs i ≡ none
unfolding get_elem?
get_elem?-short [] i h = refl
get_elem?-short (v ∷ vs) zero h = absurd (omega arith)
get_elem?-short (v ∷ vs) (suc i) h = get_elem?-short vs i (omega arith)

get_elem?-last : (n : ℕ) (ns : List ℕ) → get_elem? (n ∷ ns) (length ns) ≡ some (last_asn n ns)
unfolding get_elem? last_asn
get_elem?-last n [] = refl
get_elem?-last n (m ∷ ns) = get_elem?-last m ns

origin_asn-IsFull :
    (s : AsPathSegment) (w : IsFull s) → origin_asn s ≡ ok (last_asn w.first w.others)
unfolding origin_asn
origin_asn-IsFull s w =
    ap (λ l. or_fault (get_elem? l ((s.length + 255) % 256)) read_out_of_bounds) (w.numbers)
    ∙ ap (λ i. or_fault (get_elem? (w.first ∷ w.others) i) read_out_of_bounds) {y = length w.others}
        (omega (arith, w.counted, w.short))
    ∙ ap (λ o. or_fault o read_out_of_bounds) (get_elem?-last w.first w.others)

-- Whether a path ends in an AS, and whether a route is of a block of up to `length` bits and its path
-- ends in an AS.
pub ends_in : ℕ → Option AsPathSegment → Bool
ends_in asn none = false
ends_in asn (some s) = elim s.seg_value [ [] ↦ false | n ∷ ns ↦ last_asn n ns == asn ]

abbrev pub originates : ℕ → ℕ → Update → Bool
originates asn length u = leb u.nlri.prefix_length length && ends_in asn u.as_path

-- The prefixes and lengths of these routes, in the order of the table.
unfoldable pub originated : ℕ → ℕ → Rib → List (ℕ × ℕ)
originated asn length [] = []
originated asn length ((k, u) ∷ m) =
    if originates asn length u
    then (u.nlri.prefix, u.nlri.prefix_length) ∷ originated asn length m
    else originated asn length m

ends_in-IsFull :
    (asn : ℕ) (s : AsPathSegment) (w : IsFull s)
    → ends_in asn (some s) ≡ (last_asn w.first w.others == asn)
unfolding ends_in
ends_in-IsFull asn s w = rw (w.numbers, ends_in) refl

pub ok_if : (b c : Bool) → (if b then ok c else ok false) ≡ ok (b && c)
ok_if true c = refl
ok_if false c = refl

pub from_path-ends_in :
    (asn length prefix_length : ℕ) (o : Option AsPathSegment)
    → PathOk o
    → from_path asn length prefix_length o ≡ ok (leb prefix_length length && ends_in asn o)
unfolding from_path ends_in
from_path-ends_in asn length prefix_length none w = ground arith
from_path-ends_in asn length prefix_length (some s) w =
    rw (origin_asn-IsFull s w, ends_in-IsFull asn s w)
      (ok_if (leb prefix_length length) (last_asn w.first w.others == asn))

-- Where no path is empty.
pub ip_matches-PathsFull :
    (asn length : ℕ) (m : Rib)
    → PathsFull m
    → ip_matches asn length m ≡ ok (originated asn length m)
unfolding ip_matches originated from_asn
ip_matches-PathsFull asn length [] h = refl
ip_matches-PathsFull asn length ((k, u) ∷ m) (h, hs) =
    rw
      (
        from_path-ends_in asn length u.nlri.prefix_length u.as_path h,
        ip_matches-PathsFull asn length m hs,
      )
      refl

-- The length of a segment is the number of its AS numbers, as parse_as_path makes it.
abbrev pub IsCounted : Option AsPathSegment → Type 0
IsCounted none = Unit {0}
IsCounted (some s) = (s.length ≡ length s.seg_value) × (s.length < 256)

abbrev pub PathsCounted : Rib → Type 0
PathsCounted [] = Unit {0}
PathsCounted ((k, u) ∷ m) = IsCounted u.as_path × PathsCounted m

-- A route of a block of up to `length` bits whose path has no AS.
abbrev pub is_empty : Option AsPathSegment → Bool
is_empty none = false
is_empty (some s) = s.length == 0

unfoldable pub some_empty : ℕ → Rib → Bool
some_empty length [] = false
some_empty length ((k, u) ∷ m) =
    (leb u.nlri.prefix_length length && is_empty u.as_path) || some_empty length m

IsFull-of :
    (s : AsPathSegment) (vs : List ℕ)
    → s.seg_value ≡ vs
    → s.length ≡ length s.seg_value
    → s.length < 256
    → (s.length == 0) ≡ false
    → IsFull s
IsFull-of s [] e c short full = absurd (ground (arith, c ∙ ap length e))
IsFull-of s (n ∷ ns) e c short full = record {
  first = n;
  others = ns;
  numbers = e;
  counted = c ∙ ap length e;
  short = short;
}

origin_asn-empty :
    (s : AsPathSegment)
    → s.length ≡ length s.seg_value
    → s.length ≡ 0
    → origin_asn s ≡ fault read_out_of_bounds
unfolding origin_asn
origin_asn-empty s c z =
    ap (λ n. or_fault (get_elem? s.seg_value ((n + 255) % 256)) read_out_of_bounds) z
    ∙ ap (λ o. or_fault o read_out_of_bounds)
        (get_elem?-short s.seg_value 255 (omega (arith, c, z)))

-- The test of one route.
from_path-IsCounted :
    (asn length prefix_length : ℕ) (o : Option AsPathSegment)
    → IsCounted o
    → from_path asn length prefix_length o ≡ (
        if leb prefix_length length && is_empty o
        then fault read_out_of_bounds
        else ok (leb prefix_length length && ends_in asn o))
unfolding from_path ends_in
from_path-IsCounted asn length prefix_length none c = ground arith
from_path-IsCounted asn length prefix_length (some s) (c, short) =
    elim (Bool-cases (leb prefix_length length)) [
      | inr long ↦ rw (long, from_path) refl
      | inl fits ↦ elim (Bool-cases (s.length == 0)) [
        | inl z ↦ rw (fits, z, origin_asn-empty s c (==→eq s.length 0 z), from_path) refl
        | inr full ↦
            from_path-ends_in asn length prefix_length (some s)
              (IsFull-of s s.seg_value refl c short full)
            ∙ rw (fits, full) refl
      ]
    ]

route_then :
    (e b x : Bool) (route : ℕ × ℕ) (rest : List (ℕ × ℕ)) (r : Result Bool)
    → r ≡ (if e then fault read_out_of_bounds else ok b)
    → (r >>= λ taken. (if x then fault read_out_of_bounds else ok rest) >>= λ others.
        ok (if taken then route ∷ others else others))
      ≡ (if e || x then fault read_out_of_bounds else ok (if b then route ∷ rest else rest))
route_then true b x route rest r h = rw h refl
route_then false b true route rest r h = rw h refl
route_then false b false route rest r h = rw h refl

-- api_get_all_origin_as, for a table in which the length of every path is the number of its AS
-- numbers, at most 255: if a route whose prefix is not longer than the given length has a path with no
-- AS, it reads outside that path; and else it lists exactly the routes that have a path that ends in
-- the AS and whose prefix is not longer than the given length, in the order of the table.
pub ip_matches-originated :
    (asn length : ℕ) (m : Rib)
    → PathsCounted m
    → ip_matches asn length m
      ≡ (if some_empty length m then fault read_out_of_bounds else ok (originated asn length m))
unfolding ip_matches originated from_asn some_empty
ip_matches-originated asn length [] h = refl
ip_matches-originated asn length ((k, u) ∷ m) (h, hs) = rw (ip_matches-originated asn length m hs) (
    route_then (leb u.nlri.prefix_length length && is_empty u.as_path)
      (leb u.nlri.prefix_length length && ends_in asn u.as_path) (some_empty length m)
      (u.nlri.prefix, u.nlri.prefix_length) (originated asn length m)
      (from_path asn length u.nlri.prefix_length u.as_path)
      (from_path-IsCounted asn length u.nlri.prefix_length u.as_path h))
