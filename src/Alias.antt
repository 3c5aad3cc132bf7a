-- ===== src/Alias.antt =====
-- src/bgp_attrib_alias.cpp, and set_translation of src/bgp_peer.cpp: the names that the command line
-- gives to values of attributes. std::sort and ip_to_string, a copy of what inet_ntoa prints, are
-- parameters.
pub mod Names
pub mod Lookup
pub mod Replace
use log2bgp.Base.{
  ℕ, zero, suc, ◌+◌, ◌*◌, ◌^◌, Bool, true, false, ◌&&◌, Option, none, some, List, [], ◌∷◌, ◌++◌,
  get_elem?, erase_at, length, ◌==◌, if◌then◌else◌, Result, ok, fault, read_out_of_bounds, or_fault,
  ◌>>=◌,
}
use log2bgp.Base.Text.{decimal, codes}
use log2bgp.Peer.{Peer, TranslateAttrib}
use log2bgp.Rib.{memcmp_eq}
use log2bgp.Threads.{get_peer_by_bgp_id}

unfoldable pub same_key : ℕ → ℕ → TranslateAttrib → Bool
same_key code value a = a.code == code && a.value == value

-- The loop of set_translation from index `i` on, with `left` turns to go: their number is the size
-- of the vector before the loop.
unfoldable pub erase_same : ℕ → ℕ → ℕ → ℕ → List TranslateAttrib → Result (List TranslateAttrib)
unfolding erase_at same_key
erase_same zero i code value l = ok l
erase_same (suc left) i code value l = or_fault (get_elem? l i) read_out_of_bounds >>= λ a.
    let l' = if same_key code value a then erase_at i l else l in
    erase_same left (suc i) code value l'

-- set_translation(code, match_value, new_value).
unfoldable pub set_translation :
    (List TranslateAttrib → List TranslateAttrib) → ℕ → ℕ → List ℕ → Peer → Result Peer
unfolding erase_same
set_translation sort code match_value new_value p = do
  kept ← erase_same (length p.translate_attribs) 0 code match_value p.translate_attribs
  ok (record p {
    translate_attribs =
        sort (
          kept ++ (record { code = code; value = match_value; printable_attrib = new_value } ∷ []));
    is_aliasing = true;
  })

-- peer_doing_alias(bgp_id): the loop ends at the first peer, whatever its id.
unfoldable pub peer_doing_alias : List Peer → Bool
peer_doing_alias [] = false
peer_doing_alias (p ∷ ps) = p.is_aliasing

-- The peer whose names the translate functions use; `none` is the null pointer.
unfoldable pub aliasing_peer : ℕ → List Peer → Option Peer
unfolding peer_doing_alias
aliasing_peer bgp_id ps = if peer_doing_alias ps then get_peer_by_bgp_id bgp_id ps else none

-- The loops over the names: the first of a code, and the first of a code and a value, whose four
-- bytes are compared.
unfoldable pub find_code : ℕ → List TranslateAttrib → Option (List ℕ)
find_code code [] = none
find_code code (a ∷ l) = if a.code == code then some a.printable_attrib else find_code code l

unfoldable pub find_alias : ℕ → ℕ → List TranslateAttrib → Option (List ℕ)
find_alias code value [] = none
find_alias code value (a ∷ l) =
    if a.code == code && memcmp_eq a.value value
    then some a.printable_attrib
    else find_alias code value l

-- The name of a value that the peer knows.
unfoldable pub alias_of : ℕ → ℕ → ℕ → List Peer → Option (List ℕ)
unfolding aliasing_peer find_alias
alias_of code bgp_id value ps = elim (aliasing_peer bgp_id ps) [
  | none ↦ none
  | some p ↦ find_alias code value p.translate_attribs
]

-- A name in place of the text, and behind the text.
unfoldable pub replaced : List ℕ → Option (List ℕ) → List ℕ
replaced text none = text
replaced text (some name) = name

unfoldable pub labelled : List ℕ → Option (List ℕ) → List ℕ
labelled text none = text
labelled text (some name) = text ++ name

-- translate_as_path, translate_med and translate_local_pref.
unfoldable pub translate_as_path : ℕ → ℕ → List Peer → List ℕ
unfolding alias_of labelled
translate_as_path bgp_id as_path ps = labelled (decimal as_path) (alias_of 0x02 bgp_id as_path ps)

unfoldable pub translate_med : ℕ → ℕ → List Peer → List ℕ
unfolding alias_of replaced
translate_med bgp_id med ps = replaced (decimal med) (alias_of 0x04 bgp_id med ps)

unfoldable pub translate_local_pref : ℕ → ℕ → List Peer → List ℕ
unfolding alias_of replaced
translate_local_pref bgp_id local_pref ps =
    replaced (decimal local_pref) (alias_of 0x05 bgp_id local_pref ps)

-- translate_community_value: the value has two bytes, and four are compared; `beyond` is what the
-- next two bytes of memory hold.
unfoldable pub translate_community_value : ℕ → ℕ → ℕ → List Peer → List ℕ
unfolding alias_of replaced
translate_community_value beyond bgp_id value ps =
    replaced (decimal value) (alias_of 0x08 bgp_id (value + beyond * 2 ^ 16) ps)

-- translate_origin: an index beyond the three texts is a fault.
unfoldable pub translate_origin : ℕ → Result (List ℕ)
translate_origin origin =
    or_fault (get_elem? (codes "igp" ∷ codes "egp" ∷ codes "incomplete" ∷ []) origin)
      read_out_of_bounds

module _ (ip_to_string : ℕ → List ℕ) where
  unfoldable pub translate_bgp_id : ℕ → List Peer → List ℕ
  unfolding aliasing_peer find_code replaced
  translate_bgp_id bgp_id ps =
      replaced (ip_to_string bgp_id) (elim (aliasing_peer bgp_id ps) [
        | none ↦ none
        | some p ↦ find_code 0x00 p.translate_attribs
      ])

  unfoldable pub translate_ipv4_next_hop : ℕ → ℕ → List Peer → List ℕ
  unfolding alias_of replaced
  translate_ipv4_next_hop bgp_id next_hop ps =
      replaced (ip_to_string next_hop) (alias_of 0x03 bgp_id next_hop ps)

  unfoldable pub translate_aggregator : ℕ → ℕ → List Peer → List ℕ
  unfolding alias_of labelled
  translate_aggregator bgp_id aggr_seg ps =
      labelled (ip_to_string aggr_seg) (alias_of 0x07 bgp_id aggr_seg ps)
