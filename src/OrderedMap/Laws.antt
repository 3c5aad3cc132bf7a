-- ===== src/OrderedMap/Laws.antt =====
-- The laws of the ordered map: lookups, order, and the number of entries with a property.
use log2bgp.Base.{
  subst, Bool-cases, inl, inr, ℕ, suc, ◌+◌, ◌≤◌, ◌<◌, ◌≡◌, refl, Bool, none, some, [], ◌∷◌, ◌==◌,
  if◌then◌else◌, arith,
}
use log2bgp.OrderedMap.{KeyOrder, OrderedMap, find, insert, erase}

module _ {K V : Type 0} (o : KeyOrder K) where
  abbrev pub SortedFrom : ℕ → OrderedMap K V → Type 0
  SortedFrom n [] = Unit {0}
  SortedFrom n ((k, v) ∷ m) = (n ≤ o.rank k) × SortedFrom (suc (o.rank k)) m

  abbrev pub Sorted : OrderedMap K V → Type 0
  Sorted m = SortedFrom 0 m

  pub find-insert :
      (k j : K) (v : V) (m : OrderedMap K V)
      → find o j (insert o k v m) ≡ (if o.rank k == o.rank j then some v else find o j m)
  unfolding find insert
  find-insert k j v [] = ground (arith, o.before_rank k j, o.before_rank j k)
  find-insert k j v ((i, w) ∷ m) = ground (
    arith,
    o.before_rank k j,
    o.before_rank j k,
    o.before_rank k i,
    o.before_rank i k,
    o.before_rank i j,
    o.before_rank j i,
    find-insert k j v m,
  )

  pub find_same_rank :
      (k j : K) (m : OrderedMap K V) → o.rank k ≡ o.rank j → find o k m ≡ find o j m
  unfolding find
  find_same_rank k j [] h = refl
  find_same_rank k j ((i, w) ∷ m) h = ground (
    arith,
    o.before_rank k i,
    o.before_rank i k,
    o.before_rank j i,
    o.before_rank i j,
    find_same_rank k j m h,
  )

  pub find_below :
      (k : K) (n : ℕ) (m : OrderedMap K V) → SortedFrom n m → o.rank k < n → find o k m ≡ none
  unfolding find
  find_below k n [] s h = refl
  find_below k n ((i, w) ∷ m) s h = ground (arith, o.before_rank k i, o.before_rank i k)

  pub find-erase :
      (k j : K) (n : ℕ) (m : OrderedMap K V)
      → SortedFrom n m
      → find o j (erase o k m) ≡ (if o.rank k == o.rank j then none else find o j m)
  unfolding find erase
  find-erase k j n [] s = ground arith
  find-erase k j n ((i, w) ∷ m) s = ground (
    arith,
    o.before_rank k i,
    o.before_rank i k,
    o.before_rank i j,
    o.before_rank j i,
    find-erase k j (suc (o.rank i)) m s.1,
    find_below j (suc (o.rank i)) m s.1,
  )

  pub insert-SortedFrom :
      (k : K) (v : V) (n : ℕ) (m : OrderedMap K V)
      → SortedFrom n m
      → n ≤ o.rank k
      → SortedFrom n (insert o k v m)
  unfolding insert
  insert-SortedFrom k v n [] s h = (h, tt)
  insert-SortedFrom k v n ((i, w) ∷ m) s h =
      ground
        (arith, o.before_rank k i, o.before_rank i k, insert-SortedFrom k v (suc (o.rank i)) m s.1)

  pub SortedFrom-mono : (a b : ℕ) (m : OrderedMap K V) → a ≤ b → SortedFrom b m → SortedFrom a m
  SortedFrom-mono a b [] h s = tt
  SortedFrom-mono a b ((i, w) ∷ m) h s = (omega arith, s.1)

  pub erase-SortedFrom :
      (k : K) (n : ℕ) (m : OrderedMap K V) → SortedFrom n m → SortedFrom n (erase o k m)
  unfolding erase
  erase-SortedFrom k n [] s = tt
  erase-SortedFrom k n ((i, w) ∷ m) s = ground (
    arith,
    o.before_rank k i,
    o.before_rank i k,
    erase-SortedFrom k (suc (o.rank i)) m s.1,
    SortedFrom-mono n (suc (o.rank i)) m,
  )

  -- The number of values with a property.
  unfoldable pub count : (V → Bool) → OrderedMap K V → ℕ
  count p [] = 0
  count p ((k, v) ∷ m) = (if p v then 1 else 0) + count p m

  pub count-insert_new :
      (p : V → Bool) (k : K) (v : V) (m : OrderedMap K V)
      → find o k m ≡ none
      → count p (insert o k v m) ≡ (if p v then 1 else 0) + count p m
  unfolding find insert count
  count-insert_new p k v [] h = refl
  count-insert_new p k v ((i, w) ∷ m) h =
      ground (arith, o.before_rank k i, o.before_rank i k, count-insert_new p k v m)

  -- Over an entry the count changes by what the old and the new value count for.
  pub count-insert_old :
      (p : V → Bool) (k : K) (v w : V) (m : OrderedMap K V)
      → find o k m ≡ some w
      → count p (insert o k v m) + (if p w then 1 else 0) ≡ (if p v then 1 else 0) + count p m
  unfolding find insert count
  count-insert_old p k v w [] h = ground arith
  count-insert_old p k v w ((i, x) ∷ m) h =
      ground (arith, o.before_rank k i, o.before_rank i k, count-insert_old p k v w m)

  pub count-erase :
      (p : V → Bool) (k : K) (w : V) (m : OrderedMap K V)
      → find o k m ≡ some w
      → count p (erase o k m) + (if p w then 1 else 0) ≡ count p m
  unfolding find erase count
  count-erase p k w [] h = ground arith
  count-erase p k w ((i, x) ∷ m) h =
      ground (arith, o.before_rank k i, o.before_rank i k, count-erase p k w m)

-- A relation between the key and the value of every entry.
abbrev pub Each : {K V : Type 0} → (K → V → Type 0) → OrderedMap K V → Type 0
Each R [] = Unit {0}
Each R ((k, v) ∷ m) = R k v × Each R m

module _ {K V : Type 0} (o : KeyOrder K) (R : K → V → Type 0) where
  -- A new value goes under the key that is there: it must suit every key of the same rank.
  pub insert-Each :
      (k : K) (v : V) (m : OrderedMap K V)
      → R k v
      → ((j : K) (w : V) → R j w → o.rank j ≡ o.rank k → R j v)
      → Each R m
      → Each R (insert o k v m)
  unfolding insert
  insert-Each k v [] new over a = (new, tt)
  insert-Each k v ((i, w) ∷ m) new over a =
      ground
        (arith, o.before_rank k i, o.before_rank i k, over i w a.0, insert-Each k v m new over a.1)

  pub erase-Each : (k : K) (m : OrderedMap K V) → Each R m → Each R (erase o k m)
  unfolding erase
  erase-Each k [] a = tt
  erase-Each k ((i, w) ∷ m) a = ground (arith, erase-Each k m a.1)

  -- What find returns stands under a key of the same rank.
  pub find-Each :
      (k : K) (v : V) (m : OrderedMap K V)
      → Each R m
      → find o k m ≡ some v
      → (j : K) × R j v × (o.rank j ≡ o.rank k)
  unfolding find
  find-Each k v [] a h = absurd (ground arith)
  find-Each k v ((i, w) ∷ m) a h = elim (Bool-cases (o.before k i)) [
    | inl lt ↦ absurd (ground arith)
    | inr ge ↦ elim (Bool-cases (o.before i k)) [
      | inl gt ↦ find-Each k v m a.1 (ground arith)
      | inr le ↦
          (i, subst (R i) (ground arith) a.0, ground (arith, o.before_rank k i, o.before_rank i k))
    ]
  ]
