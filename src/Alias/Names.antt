-- ===== src/Alias/Names.antt =====
-- src/bgp_attrib_alias.cpp: how many names of a table answer for a value, and that the order of the
-- table is of no account where it is one at most.
use mathlib.Core.List.{Permᴰ}
use log2bgp.Base.{
  ℕ, suc, ◌≤◌, ◌≡◌, refl, ap, subst, ◌∙◌, Bool, ◌&&◌, none, List, [], ◌∷◌, ◌==◌, if◌then◌else◌,
  arith,
}
use log2bgp.Peer.{TranslateAttrib}
use log2bgp.Rib.{memcmp_eq}
use log2bgp.Alias.{find_alias}

-- Whether the translate functions take the name for a value of a code.
unfoldable pub names_key : ℕ → ℕ → TranslateAttrib → Bool
names_key code value a = a.code == code && memcmp_eq a.value value

-- The number of names that they could take.
unfoldable pub names : ℕ → ℕ → List TranslateAttrib → ℕ
unfolding names_key
names code value [] = 0
names code value (a ∷ l) =
    if names_key code value a then suc (names code value l) else names code value l

-- Every value of a code has at most one name.
pub record IsAliasTable (l : List TranslateAttrib) : Type 0 where
  pub unique : (code value : ℕ) → names code value l ≤ 1

names-swap :
    (code value : ℕ) (a b : TranslateAttrib) (l : List TranslateAttrib)
    → names code value (a ∷ b ∷ l) ≡ names code value (b ∷ a ∷ l)
unfolding names
names-swap code value a b l = ground arith

pub names-Perm :
    {l m : List TranslateAttrib}
    → (code value : ℕ) → Permᴰ l m
    → names code value l ≡ names code value m
unfolding names
names-Perm code value Permᴰ.nil = refl
names-Perm code value (Permᴰ.cons {a = a} {b = b} {l₁ = l} {l₂ = m} e p) =
    ap (λ c. names code value (c ∷ l)) e ∙ ground (arith, names-Perm code value p)
names-Perm code value (Permᴰ.swap {a = a} {b = b} {a' = c} {l = l} e f) =
    names-swap code value a b l
    ∙ ap (λ d. names code value (d ∷ a ∷ l)) f
    ∙ ap (λ d. names code value (c ∷ d ∷ l)) e
names-Perm code value (Permᴰ.trans p q) = names-Perm code value p ∙ names-Perm code value q

find_alias-none :
    (code value : ℕ) (l : List TranslateAttrib)
    → names code value l ≡ 0
    → find_alias code value l ≡ none
unfolding names find_alias names_key
find_alias-none code value [] h = refl
find_alias-none code value (a ∷ l) h = ground (arith, find_alias-none code value l)

pub names-none :
    (code value : ℕ) (l : List TranslateAttrib)
    → find_alias code value l ≡ none
    → names code value l ≡ 0
unfolding names find_alias names_key
names-none code value [] h = refl
names-none code value (a ∷ l) h = ground (arith, names-none code value l)

find_alias-swap :
    (code value : ℕ) (a b : TranslateAttrib) (l : List TranslateAttrib)
    → names code value (a ∷ b ∷ l) ≤ 1
    → find_alias code value (a ∷ b ∷ l) ≡ find_alias code value (b ∷ a ∷ l)
unfolding names find_alias names_key
find_alias-swap code value a b l h = ground arith

find_alias-cons :
    (code value : ℕ) (a : TranslateAttrib) (l m : List TranslateAttrib)
    → find_alias code value l ≡ find_alias code value m
    → find_alias code value (a ∷ l) ≡ find_alias code value (a ∷ m)
unfolding find_alias
find_alias-cons code value a l m h = ground arith

names-tail :
    (code value : ℕ) (a : TranslateAttrib) (l : List TranslateAttrib)
    → names code value (a ∷ l) ≤ 1
    → names code value l ≤ 1
unfolding names
names-tail code value a l h = ground arith

-- Where every key has one name, the order of the names is of no account.
pub find_alias-Perm :
    {l m : List TranslateAttrib}
    → (code value : ℕ) → Permᴰ l m
    → names code value l ≤ 1
    → find_alias code value l ≡ find_alias code value m
unfolding names find_alias names_key
find_alias-Perm code value Permᴰ.nil h = refl
find_alias-Perm code value (Permᴰ.cons {a = a} {b = b} {l₁ = l} {l₂ = m} e p) h =
    ap (λ c. find_alias code value (c ∷ l)) e
    ∙ find_alias-cons code value b l m (find_alias-Perm code value p (names-tail code value a l h))
find_alias-Perm code value (Permᴰ.swap {a = a} {b = b} {a' = c} {l = l} e f) h =
    find_alias-swap code value a b l h
    ∙ ap (λ d. find_alias code value (d ∷ a ∷ l)) f
    ∙ ap (λ d. find_alias code value (c ∷ d ∷ l)) e
find_alias-Perm code value (Permᴰ.trans p q) h =
    find_alias-Perm code value p h
    ∙ find_alias-Perm code value q (subst (λ n. n ≤ 1) (names-Perm code value p) h)
