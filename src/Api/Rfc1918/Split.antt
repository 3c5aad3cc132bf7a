-- ===== src/Api/Rfc1918/Split.antt =====
-- api/bgp_api.cpp: the queries for the public and the private routes of an AS split those of the query
-- for all of them.
use log2bgp.Base.{ℕ, ◌≡◌, refl, Bool, true, false, ◌&&◌, List, [], ◌∷◌, if◌then◌else◌, ok, All}
use log2bgp.Rib.{Rib}
use log2bgp.Api.Match.{from_asn, ip_matches}
use log2bgp.Api.Match.Origin.{
  PathsFull, originates, ok_if, from_path-ends_in, originated, ip_matches-PathsFull,
}
use log2bgp.Api.Rfc1918.{is_rfc1918, of_class, class_matches}

-- The third list is the other two, each in its order.
pub data Interleaved : List (ℕ × ℕ) → List (ℕ × ℕ) → List (ℕ × ℕ) → Type 0 where
  done : Interleaved [] [] []
  left : {p : ℕ × ℕ} {a b c : List (ℕ × ℕ)} → Interleaved a b c → Interleaved (p ∷ a) b (p ∷ c)
  right : {p : ℕ × ℕ} {a b c : List (ℕ × ℕ)} → Interleaved a b c → Interleaved a (p ∷ b) (p ∷ c)

-- A route in front of the list, if it is taken.
abbrev taken : Bool → ℕ × ℕ → List (ℕ × ℕ) → List (ℕ × ℕ)
taken b p l = if b then p ∷ l else l

class_list : Bool → ℕ → ℕ → Rib → List (ℕ × ℕ)
class_list wanted asn length [] = []
class_list wanted asn length ((k, u) ∷ m) =
    taken (of_class wanted (is_rfc1918 u.nlri.prefix) && originates asn length u)
      (u.nlri.prefix, u.nlri.prefix_length) (class_list wanted asn length m)

class_matches-list :
    (wanted : Bool) (asn length : ℕ) (m : Rib)
    → PathsFull m
    → class_matches wanted asn length m ≡ ok (class_list wanted asn length m)
unfolding class_matches class_list from_asn
class_matches-list wanted asn length [] h = refl
class_matches-list wanted asn length ((k, u) ∷ m) (h, hs) =
    rw
      (
        from_path-ends_in asn length u.nlri.prefix_length u.as_path h,
        ok_if (of_class wanted (is_rfc1918 u.nlri.prefix)) (originates asn length u),
        class_matches-list wanted asn length m hs,
      )
      refl

Interleaved-taken :
    (private from : Bool) (p : ℕ × ℕ) (a b c : List (ℕ × ℕ))
    → Interleaved a b c
    → Interleaved
        (taken (of_class true private && from) p a)
        (taken (of_class false private && from) p b)
        (taken from p c)
unfolding of_class
Interleaved-taken true true p a b c h = Interleaved.left h
Interleaved-taken true false p a b c h = h
Interleaved-taken false true p a b c h = Interleaved.right h
Interleaved-taken false false p a b c h = h

class_list-Interleaved :
    (asn length : ℕ) (m : Rib)
    → Interleaved
        (class_list true asn length m)
        (class_list false asn length m)
        (originated asn length m)
unfolding class_list originated
class_list-Interleaved asn length [] = Interleaved.done
class_list-Interleaved asn length ((k, u) ∷ m) =
    Interleaved-taken (is_rfc1918 u.nlri.prefix) (originates asn length u) _ _ _ _
      (class_list-Interleaved asn length m)

All-taken :
    (b : Bool) (P : ℕ × ℕ → Type 0) (p : ℕ × ℕ) (l : List (ℕ × ℕ))
    → (b ≡ true → P p)
    → All P l
    → All P (taken b p l)
All-taken true P p l h hs = (h refl, hs)
All-taken false P p l h hs = hs

of_class-eq :
    (wanted private from : Bool) → (of_class wanted private && from) ≡ true → private ≡ wanted
unfolding of_class
of_class-eq true true from h = refl
of_class-eq true false from h = cc
of_class-eq false true from h = cc
of_class-eq false false from h = refl

class_list-All :
    (wanted : Bool) (asn length : ℕ) (m : Rib)
    → All (λ p. is_rfc1918 (p.0) ≡ wanted) (class_list wanted asn length m)
unfolding class_list
class_list-All wanted asn length [] = tt
class_list-All wanted asn length ((k, u) ∷ m) =
    All-taken (of_class wanted (is_rfc1918 u.nlri.prefix) && originates asn length u)
      (λ p. is_rfc1918 (p.0) ≡ wanted) _ _
      (of_class-eq wanted (is_rfc1918 u.nlri.prefix) (originates asn length u))
      (class_list-All wanted asn length m)

-- For a table in which every path is full, the query for the private routes of an AS, the query for the
-- public ones and the query for all of them list their routes without a fault. The third list is the
-- first two put together, each in its order; the prefixes of the first are in the ranges of RFC 1918,
-- and those of the second are not.
pub class_matches-Interleaved :
    (asn length : ℕ) (m : Rib)
    → PathsFull m
    → (a b c : List (ℕ × ℕ)) × (class_matches true asn length m ≡ ok a)
      × (class_matches false asn length m ≡ ok b)
      × (ip_matches asn length m ≡ ok c)
      × Interleaved a b c
      × All (λ p. is_rfc1918 (p.0) ≡ true) a
      × All (λ p. is_rfc1918 (p.0) ≡ false) b
class_matches-Interleaved asn length m h = (
  class_list true asn length m,
  class_list false asn length m,
  originated asn length m,
  class_matches-list true asn length m h,
  class_matches-list false asn length m h,
  ip_matches-PathsFull asn length m h,
  class_list-Interleaved asn length m,
  class_list-All true asn length m,
  class_list-All false asn length m,
)
