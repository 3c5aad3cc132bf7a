-- ===== src/Alias/Replace.antt =====
-- src/bgp_peer.cpp: set_translation for a value that has a name already.
use log2bgp.Base.{
  ℕ, zero, suc, ◌+◌, ◌≤◌, ◌<◌, ◌≡◌, refl, sym, subst, true, false, some, List, [], ◌∷◌, get_elem?,
  length, erase_at, length-erase_at, arith, fault, read_out_of_bounds, Bool-cases, Option-cases,
  inl, inr, dec_lt,
}
use log2bgp.Peer.{Peer, TranslateAttrib}
use log2bgp.Alias.{same_key, erase_same, set_translation}

get_elem?-lt :
    (i : ℕ) (l : List TranslateAttrib) (a : TranslateAttrib) → get_elem? l i ≡ some a → i < length l
unfolding get_elem?
get_elem?-lt i [] a h = ground arith
get_elem?-lt zero (b ∷ l) a h = omega arith
get_elem?-lt (suc i) (b ∷ l) a h = omega (arith, get_elem?-lt i l a h)

get_elem?-some :
    (i : ℕ) (l : List TranslateAttrib)
    → i < length l
    → (a : TranslateAttrib) × (get_elem? l i ≡ some a)
unfolding get_elem?
get_elem?-some i [] h = absurd (omega arith)
get_elem?-some zero (b ∷ l) h = (b, refl)
get_elem?-some (suc i) (b ∷ l) h = get_elem?-some i l (omega arith)

place_lt :
    (i j code value : ℕ) (l : List TranslateAttrib) (a b : TranslateAttrib)
    → i ≤ j
    → get_elem? l i ≡ some b
    → get_elem? l j ≡ some a
    → same_key code value b ≡ false
    → same_key code value a ≡ true
    → suc i ≤ j
place_lt i j code value l a b h f e s t = elim (dec_lt i j) [
  | yes k ↦ k
  | no k ↦
      let i=j : i ≡ j = omega arith in
      let g : get_elem? l i ≡ some a = subst (λ n. get_elem? l n ≡ some a) (sym i=j) e in
      absurd (ground (arith, f, g, s, t))
]

same_key-true :
    (code value : ℕ) (a : TranslateAttrib)
    → (a.code ≡ code) × (a.value ≡ value)
    → same_key code value a ≡ true
unfolding same_key
same_key-true code value a (c, v) = ground arith

-- A loop that has more turns to go than there are names left reads beyond the last.
beyond_last :
    (left i code value : ℕ) (l : List TranslateAttrib)
    → 1 ≤ left
    → length l < left + i
    → erase_same left i code value l ≡ fault read_out_of_bounds
unfolding erase_same
beyond_last zero i code value l h k = absurd (omega arith)
beyond_last (suc left) i code value l h k = elim (Option-cases (get_elem? l i)) [
  | inl e ↦ rw e refl
  | inr (a, e) ↦
      let m = get_elem?-lt i l a e in
      elim (Bool-cases (same_key code value a)) [
        | inl t ↦
            rw (e, t)
              (beyond_last left (suc i) code value (erase_at i l) (omega arith)
                (omega (arith, length-erase_at i l m)))
        | inr f ↦ rw (e, f) (beyond_last left (suc i) code value l (omega arith) (omega arith))
      ]
]

erase_same-fault :
    (left i j code value : ℕ) (l : List TranslateAttrib) (a : TranslateAttrib)
    → left + i ≡ length l
    → i ≤ j
    → suc j < length l
    → get_elem? l j ≡ some a
    → same_key code value a ≡ true
    → erase_same left i code value l ≡ fault read_out_of_bounds
unfolding erase_same
erase_same-fault zero i j code value l a h k m e t = absurd (omega arith)
erase_same-fault (suc left) i j code value l a h k m e t =
    let (b, f) = get_elem?-some i l (omega arith) in
    elim (Bool-cases (same_key code value b)) [
      | inl s ↦
          rw (f, s)
            (beyond_last left (suc i) code value (erase_at i l) (omega arith)
              (omega (arith, length-erase_at i l (omega arith))))
      | inr s ↦
          rw (f, s)
            (erase_same-fault left (suc i) j code value l a (omega arith)
              (place_lt i j code value l a b k f e s t) m e t)
    ]

-- set_translation for a code and a value that has a name in the table, at any place but the last,
-- reads beyond the end of the table: the loop counts to the size that the table had before the name
-- was erased. This is so whatever orders the table (std::sort).
pub set_translation_stale_size :
    (sort : List TranslateAttrib → List TranslateAttrib) (code value : ℕ) (name : List ℕ) (p : Peer)
    (j : ℕ) (a : TranslateAttrib)
    → get_elem? p.translate_attribs j ≡ some a
    → (a.code ≡ code) × (a.value ≡ value)
    → suc j < length p.translate_attribs
    → set_translation sort code value name p ≡ fault read_out_of_bounds
unfolding set_translation
set_translation_stale_size sort code value name p j a e f h =
    let l = p.translate_attribs in
    let t = same_key-true code value a f in
    rw (erase_same-fault (length l) 0 j code value l a (omega arith) (omega arith) h e t) refl
