-- ===== src/OrderedMap.antt =====
-- What the program uses of std::map: a list of key and value in the order of the keys, walked from
-- the first key. Two keys are the same when neither comes before the other.
pub mod Laws
use log2bgp.Base.{ℕ, ◌≡◌, Bool, Option, none, some, List, [], ◌∷◌, ltb, if◌then◌else◌}

-- The comparison object. `rank` shows that it is a strict weak order, as std::map demands.
pub record KeyOrder (K : Type 0) : Type 0 where
  pub before : K → K → Bool
  pub rank : K → ℕ
  pub before_rank : (a b : K) → before a b ≡ ltb (rank a) (rank b)

abbrev pub OrderedMap : Type 0 → Type 0 → Type 0
OrderedMap K V = List (K × V)

module _ {K V : Type 0} (o : KeyOrder K) where
  -- find(k), and the value it points at; `none` is end().
  unfoldable pub find : K → OrderedMap K V → Option V
  find k [] = none
  find k ((j, v) ∷ m) = if o.before k j then none else if o.before j k then find k m else some v

  -- m[k] = v: a key that is there keeps its place and its spelling.
  unfoldable pub insert : K → V → OrderedMap K V → OrderedMap K V
  insert k v [] = (k, v) ∷ []
  insert k v ((j, w) ∷ m) =
      if o.before k j
      then (k, v) ∷ (j, w) ∷ m
      else if o.before j k
      then (j, w) ∷ insert k v m
      else (j, v) ∷ m

  -- erase(find(k)).
  unfoldable pub erase : K → OrderedMap K V → OrderedMap K V
  erase k [] = []
  erase k ((j, w) ∷ m) =
      if o.before k j then (j, w) ∷ m else if o.before j k then (j, w) ∷ erase k m else m
