-- ===== src/Threads.antt =====
-- src/bgp_thread-mgr.cpp: the table of neighbors. The threads that start_peer starts run by
-- themselves: what they do is in the session.
pub mod Table
use log2bgp.Base.{
  ℕ, zero, suc, ◌+◌, ◌-◌, ◌%◌, ◌++◌, ltb, or_fault, use_after_free, ◌>>=◌, length, get_elem?,
  erase_at, Bool, true, ◌&&◌, ◌||◌, Result, ok, fault, no_fuel, ◌≡◌, refl, false, Option, none,
  some, List, [], ◌∷◌, ◌==◌, if◌then◌else◌, arith,
}
use log2bgp.Peer.{Peer, copy_peer}

-- get_peer_by_uint32_t_bgp_id: the first peer with the BGP id; `none` is the null pointer.
unfoldable pub get_peer_by_bgp_id : ℕ → List Peer → Option Peer
get_peer_by_bgp_id bgp_id [] = none
get_peer_by_bgp_id bgp_id (p ∷ ps) =
    if p.bgp_id == bgp_id then some p else get_peer_by_bgp_id bgp_id ps

-- What `f` writes through the pointer that get_peer_by_uint32_t_bgp_id returns.
unfoldable pub through_peer : ℕ → (Peer → Peer) → List Peer → List Peer
through_peer bgp_id f [] = []
through_peer bgp_id f (p ∷ ps) =
    if p.bgp_id == bgp_id then f p ∷ ps else p ∷ through_peer bgp_id f ps

-- std::string::compare against a text that a NUL ends.
unfoldable pub same_text : List ℕ → List ℕ → Bool
same_text [] [] = true
same_text [] (d ∷ m) = false
same_text (c ∷ n) [] = false
same_text (c ∷ n) (d ∷ m) = c == d && same_text n m

-- The loop of get_peer_by_str_ip.
unfoldable pub find_ip : List ℕ → List Peer → Option Peer
unfolding same_text
find_ip ip [] = none
find_ip ip (p ∷ ps) = if same_text ip p.p_ip then some p else find_ip ip ps

-- get_peer_by_str_ip, and what is written through the pointer.
unfoldable pub get_peer_by_str_ip : List ℕ → List Peer → Option Peer
unfolding find_ip
get_peer_by_str_ip [] ps = none
get_peer_by_str_ip (c ∷ ip) ps = find_ip (c ∷ ip) ps

unfoldable pub write_peer : List ℕ → Peer → List Peer → List Peer
unfolding same_text
write_peer ip q [] = []
write_peer ip q (p ∷ ps) = if same_text ip p.p_ip then q ∷ ps else p ∷ write_peer ip q ps

-- start_peer: the copy that is pushed; its thread starts at once.
unfoldable pub start_peer : Peer → List Peer → List Peer
unfolding copy_peer
start_peer p ps = ps ++ (copy_peer p ∷ [])

-- peer_exists of a peer, for a table of up to 255: AF_INET is 2, and no other family is compared.
unfoldable pub peer_exists : Peer → List Peer → Bool
peer_exists p [] = false
peer_exists p (q ∷ qs) = (p.addr_family == 2 && q.ipv4 == p.ipv4) || peer_exists p qs

-- The loop of delete_peer from the uint8_t index `i` on. The peer that it is called with stands at
-- `self`, and its id is read in each turn. When this very peer is erased, it is freed, and then its
-- p_ip is read. (Only a copy of the shared pointer, which the main loop makes while it looks at the
-- peer, would keep it.)
unfoldable pub delete_loop : ℕ → ℕ → ℕ → List Peer → Result (List Peer)
unfolding get_elem? erase_at
delete_loop zero i self ps = fault no_fuel
delete_loop (suc fuel) i self ps = elim (get_elem? ps i) [
  | none ↦ ok ps
  | some p ↦ or_fault (get_elem? ps self) use_after_free >>= λ peer.
      let later = delete_loop fuel ((i + 1) % 256) self ps in
      let shifted =
        delete_loop fuel ((i + 1) % 256) (if ltb i self then self - 1 else self) (erase_at i ps) in
      if p.bgp_id == peer.bgp_id
      then (if i == self then fault use_after_free else shifted)
      else later
]

-- delete_peer of the peer at `self`; a turn for each peer and one to leave the loop.
unfoldable pub delete_peer : ℕ → List Peer → Result (List Peer)
unfolding delete_loop
delete_peer self ps = delete_loop (suc (length ps)) 0 self ps

-- A write through a pointer is seen through it, and through no pointer of another id.
pub get_peer-through_peer_self :
    (i : ℕ) (f : Peer → Peer) (ps : List Peer) (p : Peer)
    → get_peer_by_bgp_id i ps ≡ some p
    → (f p).bgp_id ≡ i
    → get_peer_by_bgp_id i (through_peer i f ps) ≡ some (f p)
unfolding get_peer_by_bgp_id through_peer
get_peer-through_peer_self i f [] p h k = ground arith
get_peer-through_peer_self i f (q ∷ ps) p h k = ground (arith, get_peer-through_peer_self i f ps p)

pub get_peer-through_peer_ne :
    (i j : ℕ) (f : Peer → Peer) (ps : List Peer)
    → ((p : Peer) → (f p).bgp_id ≡ p.bgp_id)
    → (i == j) ≡ false
    → get_peer_by_bgp_id j (through_peer i f ps) ≡ get_peer_by_bgp_id j ps
unfolding get_peer_by_bgp_id through_peer
get_peer-through_peer_ne i j f [] k h = refl
get_peer-through_peer_ne i j f (q ∷ ps) k h =
    ground (arith, k q, get_peer-through_peer_ne i j f ps k h)

pub get_peer-bgp_id :
    (i : ℕ) (ps : List Peer) (p : Peer) → get_peer_by_bgp_id i ps ≡ some p → p.bgp_id ≡ i
unfolding get_peer_by_bgp_id
get_peer-bgp_id i [] p h = ground arith
get_peer-bgp_id i (q ∷ ps) p h = ground (arith, get_peer-bgp_id i ps p)
