-- ===== src/Alias/Lookup.antt =====
-- src/bgp_peer.cpp and src/bgp_attrib_alias.cpp: a new name is found by the translate functions.
use mathlib.Core.List.{Permᴰ}
use log2bgp.Base.{
  ℕ, zero, suc, ◌+◌, ◌≤◌, ◌<◌, ◌≡◌, refl, sym, ap, subst, ◌∙◌, Bool, true, false, ◌&&◌, Option,
  none, some, List, [], ◌∷◌, ◌++◌, get_elem?, length, ◌==◌, if◌then◌else◌, arith, ok, Bool-cases,
  inl, inr,
}
use log2bgp.Base.Words.{ntohl}
use log2bgp.Peer.{Peer, TranslateAttrib}
use log2bgp.Rib.{memcmp_eq, memcmp_eq-ntohl}
use log2bgp.Alias.{same_key, erase_same, set_translation, find_alias}
use log2bgp.Alias.Names.{names_key, names, IsAliasTable, names-Perm, names-none, find_alias-Perm}

same_key-names_key :
    (code value : ℕ) (a : TranslateAttrib)
    → names_key code value a ≡ false
    → same_key code value a ≡ false
unfolding names_key same_key
same_key-names_key code value a h =
    ground (arith, memcmp_eq-ntohl a.value value, λ (e : a.value ≡ value). ap ntohl e)

no_name_at :
    (code value : ℕ) (l : List TranslateAttrib) (i : ℕ)
    → i < length l
    → find_alias code value l ≡ none
    → (a : TranslateAttrib) × (get_elem? l i ≡ some a) × (same_key code value a ≡ false)
unfolding get_elem? find_alias names_key
no_name_at code value [] i h k = absurd (omega arith)
no_name_at code value (a ∷ l) zero h k = (a, refl, same_key-names_key code value a (ground arith))
no_name_at code value (a ∷ l) (suc i) h k = no_name_at code value l i (omega arith) (ground arith)

-- The loop of set_translation over a table that has no name of the key keeps the table.
erase_same-none :
    (left i code value : ℕ) (l : List TranslateAttrib)
    → left + i ≡ length l
    → find_alias code value l ≡ none
    → erase_same left i code value l ≡ ok l
unfolding erase_same
erase_same-none zero i code value l h k = refl
erase_same-none (suc left) i code value l h k =
    let (a, e, f) = no_name_at code value l i (omega arith) k in
    rw (e, f) (erase_same-none left (suc i) code value l (omega arith) k)

-- A name behind the others.
names-snoc :
    (code value : ℕ) (l : List TranslateAttrib) (a : TranslateAttrib)
    → names code value (l ++ (a ∷ []))
      ≡ names code value l + (if names_key code value a then 1 else 0)
unfolding names
names-snoc code value [] a = ground arith
names-snoc code value (b ∷ l) a = ground (arith, names-snoc code value l a)

or_else : {A : Type 0} → Option A → Option A → Option A
or_else (some a) o = some a
or_else none o = o

or_else-if :
    {A : Type 0} (b : Bool) (o : Option A) (a : A)
    → (b ≡ true → o ≡ none)
    → or_else o (if b then some a else none) ≡ (if b then some a else o)
unfolding or_else
or_else-if true o a h = rw (h refl) refl
or_else-if false none a h = refl
or_else-if false (some x) a h = refl

find_alias-snoc :
    (code value : ℕ) (l : List TranslateAttrib) (a : TranslateAttrib)
    → find_alias code value (l ++ (a ∷ []))
      ≡ or_else
          (find_alias code value l)
          (if names_key code value a then some a.printable_attrib else none)
unfolding find_alias names_key or_else
find_alias-snoc code value [] a = refl
find_alias-snoc code value (b ∷ l) a = ground (arith, find_alias-snoc code value l a)

memcmp_eq-congr : (value v w : ℕ) → memcmp_eq value v ≡ true → memcmp_eq w v ≡ memcmp_eq w value
memcmp_eq-congr value v w h =
    ground (arith, memcmp_eq-ntohl value v, memcmp_eq-ntohl w v, memcmp_eq-ntohl w value)

find_alias-congr :
    (code value v : ℕ) (l : List TranslateAttrib)
    → memcmp_eq value v ≡ true
    → find_alias code v l ≡ find_alias code value l
unfolding find_alias
find_alias-congr code value v [] h = refl
find_alias-congr code value v (a ∷ l) h =
    ground (arith, memcmp_eq-congr value v a.value h, find_alias-congr code value v l h)

-- The name of a new key behind the names of a table.
abbrev added_name : ℕ → ℕ → List ℕ → TranslateAttrib
added_name code value name = record { code = code; value = value; printable_attrib = name }

none_of_key :
    (code value : ℕ) (name : List ℕ) (c v : ℕ) (l : List TranslateAttrib)
    → names_key c v (added_name code value name) ≡ true
    → find_alias code value l ≡ none
    → find_alias c v l ≡ none
unfolding names_key
none_of_key code value name c v l h k =
    let e : code ≡ c = ground (arith, h) in
    subst (λ d. find_alias d v l ≡ none) e (find_alias-congr code value v l (ground (arith, h)) ∙ k)

find_alias-added :
    (code value : ℕ) (name : List ℕ) (c v : ℕ) (l : List TranslateAttrib)
    → find_alias code value l ≡ none
    → find_alias c v (l ++ (added_name code value name ∷ []))
      ≡ (if names_key c v (added_name code value name) then some name else find_alias c v l)
find_alias-added code value name c v l h =
    find_alias-snoc c v l (added_name code value name)
    ∙ or_else-if (names_key c v (added_name code value name)) (find_alias c v l) name
        (λ t. none_of_key code value name c v l t h)

added_name-IsAliasTable :
    (code value : ℕ) (name : List ℕ) (l : List TranslateAttrib)
    → IsAliasTable l
    → find_alias code value l ≡ none
    → IsAliasTable (l ++ (added_name code value name ∷ []))
added_name-IsAliasTable code value name l w h = record {
  unique = λ c v.
      let e = names-snoc c v l (added_name code value name) in
      elim (Bool-cases (names_key c v (added_name code value name))) [
        | inl t ↦ ground (arith, e, t, names-none c v l (none_of_key code value name c v l t h))
        | inr f ↦ ground (arith, e, f, w.unique c v)
      ];
}

-- Whether a name given to a value of a code answers for another value and code: the four bytes of
-- the values are equal.
abbrev pub answers : ℕ → ℕ → ℕ → ℕ → Bool
answers code value c v = code == c && memcmp_eq value v

-- set_translation, where the table has at most one name for every value of a code and none for this
-- one, always ends, and its table still has at most one name for each. A lookup of the code and the
-- value then finds the new name, and every other lookup finds what it found before. Whatever orders
-- the table (std::sort) is only taken to permute it.
pub set_translation-find_alias :
    (sort : List TranslateAttrib → List TranslateAttrib)
    → ((l : List TranslateAttrib) → Permᴰ (sort l) l)
    → (code value : ℕ) (name : List ℕ) (p : Peer) → IsAliasTable p.translate_attribs
    → find_alias code value p.translate_attribs ≡ none
    → (q : Peer) × (set_translation sort code value name p ≡ ok q)
      × IsAliasTable q.translate_attribs
      × (q.is_aliasing ≡ true)
      × ((c v : ℕ)
          → find_alias c v q.translate_attribs
            ≡ (if answers code value c v then some name else find_alias c v p.translate_attribs))
unfolding set_translation names_key
set_translation-find_alias sort perm code value name p w h =
    let l = p.translate_attribs in
    let m = l ++ (added_name code value name ∷ []) in
    let wm = added_name-IsAliasTable code value name l w h in
    let ws : IsAliasTable (sort m) = record {
      unique = λ c v. subst (λ n. n ≤ 1) (sym (names-Perm c v (perm m))) (wm.unique c v);
    } in
    (
      record p { translate_attribs = sort m; is_aliasing = true },
      rw (erase_same-none (length l) 0 code value l (omega arith) h) refl,
      ws,
      refl,
      λ c v.
          find_alias-Perm c v (perm m) (ws.unique c v) ∙ find_alias-added code value name c v l h,
    )
