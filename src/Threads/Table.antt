-- ===== src/Threads/Table.antt =====
-- src/bgp_thread-mgr.cpp: peers that are added to the table and taken out of it.
use log2bgp.Base.{
  All, true, false, fault, use_after_free, ℕ, zero, suc, ◌+◌, ◌%◌, ◌≤◌, ◌<◌, ◌≡◌, ◌≢◌, refl, sym,
  ap, ◌∙◌, some, List, [], ◌∷◌, ◌++◌, append_assoc, length, get_elem?, get_elem?-middle,
  length-append, ◌==◌, arith,
}
use log2bgp.Peer.{Peer, copy_peer}
use log2bgp.Threads.{start_peer, peer_exists, delete_loop, delete_peer}

-- A peer that was not in the table, by the test of peer_exists, is not in it by this test after it
-- has been added, unless its address is 0: the copy that is added has no address.
pub start_peer-peer_exists :
    (p : Peer) (ps : List Peer) → p.ipv4 ≢ 0 → peer_exists p (start_peer p ps) ≡ peer_exists p ps
unfolding start_peer peer_exists copy_peer
start_peer-peer_exists p [] h = ground (arith, h)
start_peer-peer_exists p (q ∷ ps) h = ground (arith, start_peer-peer_exists p ps h)

-- The id of the peer at a place is not this one.
abbrev pub OtherId : ℕ → Peer → Type 0
OtherId bgp_id q = (q.bgp_id == bgp_id) ≡ false

get_elem?-two :
    (xs es ys : List Peer) (p : Peer)
    → get_elem? (xs ++ (es ++ (p ∷ ys))) (length xs + length es) ≡ some p
get_elem?-two xs es ys p =
    ap (λ l. get_elem? l (length xs + length es)) (sym (append_assoc xs es (p ∷ ys)))
    ∙ ap (get_elem? ((xs ++ es) ++ (p ∷ ys))) (sym (length-append xs es))
    ∙ get_elem?-middle (xs ++ es) ys p

delete_loop-other :
    (fuel i self : ℕ) (ps : List Peer) (q p : Peer)
    → get_elem? ps i ≡ some q
    → get_elem? ps self ≡ some p
    → OtherId p.bgp_id q
    → delete_loop (suc fuel) i self ps ≡ delete_loop fuel ((i + 1) % 256) self ps
unfolding delete_loop
delete_loop-other fuel i self ps q p h k e = rw (h, k, e, delete_loop) refl

delete_loop_self :
    (fuel i self : ℕ) (ps : List Peer) (p : Peer)
    → get_elem? ps i ≡ some p
    → i ≡ self
    → delete_loop (suc fuel) i self ps ≡ fault use_after_free
unfolding delete_loop
delete_loop_self fuel i self ps p h e =
    let k : get_elem? ps self ≡ some p = ap (get_elem? ps) (sym e) ∙ h in
    let same : (p.bgp_id == p.bgp_id) ≡ true = ground arith in
    let here : (i == self) ≡ true = ground arith in rw (h, k, same, here, delete_loop) refl

delete_loop_use_after_free :
    (fuel : ℕ) (xs es ys : List Peer) (p : Peer)
    → length es < fuel
    → length xs + length es ≤ 255
    → All (OtherId p.bgp_id) es
    → delete_loop fuel (length xs) (length xs + length es) (xs ++ (es ++ (p ∷ ys)))
      ≡ fault use_after_free
delete_loop_use_after_free zero xs es ys p h k o = absurd (omega arith)
delete_loop_use_after_free (suc fuel) xs [] ys p h k o =
    delete_loop_self fuel (length xs) (length xs + 0) (xs ++ (p ∷ ys)) p (get_elem?-middle xs ys p)
      (omega arith)
delete_loop_use_after_free (suc fuel) xs (e ∷ es) ys p h k (o, os) =
    let n : length (xs ++ (e ∷ [])) ≡ length xs + 1 = omega (arith, length-append xs (e ∷ [])) in
    delete_loop-other fuel (length xs) (length xs + suc (length es)) (xs ++ (e ∷ es ++ (p ∷ ys))) e
      p (get_elem?-middle xs (es ++ (p ∷ ys)) e) (get_elem?-two xs (e ∷ es) ys p) o
    ∙ ap (λ i. delete_loop fuel i (length xs + suc (length es)) (xs ++ (e ∷ es ++ (p ∷ ys))))
        {y = length (xs ++ (e ∷ []))} (omega (arith, n))
    ∙ ap (λ j. delete_loop fuel (length (xs ++ (e ∷ []))) j (xs ++ (e ∷ es ++ (p ∷ ys))))
        {y = length (xs ++ (e ∷ [])) + length es} (omega (arith, n))
    ∙ ap (delete_loop fuel (length (xs ++ (e ∷ []))) (length (xs ++ (e ∷ [])) + length es))
        (sym (append_assoc xs (e ∷ []) (es ++ (p ∷ ys))))
    ∙ delete_loop_use_after_free fuel (xs ++ (e ∷ [])) es ys p (omega arith) (omega (arith, n)) os

-- delete_peer of a peer with up to 255 peers before it, none of which has its id, erases the peer
-- and then reads it, which is freed by then.
pub delete_peer_use_after_free :
    (xs ys : List Peer) (p : Peer)
    → length xs ≤ 255
    → All (OtherId p.bgp_id) xs
    → delete_peer (length xs) (xs ++ (p ∷ ys)) ≡ fault use_after_free
unfolding delete_peer
delete_peer_use_after_free xs ys p h o =
    ap (λ j. delete_loop (suc (length (xs ++ (p ∷ ys)))) 0 j (xs ++ (p ∷ ys))) {y = 0 + length xs}
      (omega arith)
    ∙ delete_loop_use_after_free (suc (length (xs ++ (p ∷ ys)))) [] xs ys p
        (omega (arith, length-append xs (p ∷ ys))) (omega arith) o
