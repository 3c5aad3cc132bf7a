-- ===== src/Decode/Attrib/Places.antt =====
-- src/bgp_update.cpp: numbers that are read at a place of the packet.
use log2bgp.Base.{
  ℕ, zero, suc, ◌+◌, ◌≡◌, refl, sym, ap, ◌∙◌, List, [], ◌∷◌, ◌++◌, get_elem?, drop, arith, ok,
}
use log2bgp.Decode.Buffer.{byte_at, be16, be32}
use log2bgp.Decode.Attrib.Encode.{be2, be4}

suc_plus : (i k : ℕ) → suc i + k ≡ suc (i + k)
suc_plus i k = omega arith

get_elem?-drop : (i k : ℕ) (p : List ℕ) → get_elem? p (i + k) ≡ get_elem? (drop i p) k
unfolding get_elem? drop
get_elem?-drop zero k p = ap (get_elem? p) (omega arith)
get_elem?-drop (suc i) k [] = refl
get_elem?-drop (suc i) k (x ∷ p) = ap (get_elem? (x ∷ p)) (suc_plus i k) ∙ get_elem?-drop i k p

drop_nil : (k : ℕ) → drop {A = ℕ} k [] ≡ []
unfolding drop
drop_nil zero = refl
drop_nil (suc k) = refl

pub drop-drop : (i k : ℕ) (p : List ℕ) → drop (i + k) p ≡ drop k (drop i p)
unfolding drop
drop-drop zero k p = ap (λ n. drop n p) (omega arith)
drop-drop (suc i) k [] = ap (λ n. drop n []) (suc_plus i k) ∙ sym (drop_nil k)
drop-drop (suc i) k (x ∷ p) = ap (λ n. drop n (x ∷ p)) (suc_plus i k) ∙ drop-drop i k p

pub plus_plus : (i j k : ℕ) → i + (j + k) ≡ i + j + k
plus_plus i j k = omega arith

-- A byte of what stands from a place on.
pub at : (i k : ℕ) (p xs : List ℕ) → drop i p ≡ xs → get_elem? p (i + k) ≡ get_elem? xs k
at i k p xs h = get_elem?-drop i k p ∙ ap (λ l. get_elem? l k) h

pub at_start : (i : ℕ) (p xs : List ℕ) → drop i p ≡ xs → get_elem? p i ≡ get_elem? xs 0
at_start i p xs h = ap (get_elem? p) (omega arith) ∙ at i 0 p xs h

pub after : (i k : ℕ) (p xs : List ℕ) → drop i p ≡ xs → drop (i + k) p ≡ drop k xs
after i k p xs h = drop-drop i k p ∙ ap (drop k) h

pub be16-drop : (i v : ℕ) (p r : List ℕ) → drop i p ≡ be2 v ++ r → be16 p i ≡ ok v
unfolding be16 be2 byte_at get_elem?
be16-drop i v p r h = ground (arith, at_start i p (be2 v ++ r) h, at i 1 p (be2 v ++ r) h)

pub be32-drop : (i v : ℕ) (p r : List ℕ) → drop i p ≡ be4 v ++ r → be32 p i ≡ ok v
unfolding be32 be4 byte_at get_elem?
be32-drop i v p r h = ground (
  arith,
  at_start i p (be4 v ++ r) h,
  at i 1 p (be4 v ++ r) h,
  at i 2 p (be4 v ++ r) h,
  at i 3 p (be4 v ++ r) h,
)
