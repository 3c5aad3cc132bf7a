-- ===== src/Rib/Flush.antt =====
-- src/bgp.cpp: the loop at the end of a session that flushes the peer's routes.
use log2bgp.Base.{
  ℕ, zero, suc, ◌+◌, ◌%◌, ◌^◌, ◌≤◌, ◌≡◌, refl, none, some, [], ◌∷◌, inl, inr, arith, length, ◌==◌,
  if◌then◌else◌, Bool-cases, Option-cases,
}
use log2bgp.Base.Words.{dec32}
use log2bgp.OrderedMap.Laws.{count}
use log2bgp.Rib.{Rib, flush_peer, flush_peer_loop}
use log2bgp.Rib.Counters.{routes}

-- The routes of other peers.
abbrev pub without_peer : ℕ → Rib → Rib
without_peer i [] = []
without_peer i ((k, u) ∷ m) =
    if u.nlri.bgp_id == i then without_peer i m else (k, u) ∷ without_peer i m

-- One call takes one route of the peer, and none of another's.
flush_peer-none :
    (i : ℕ) (m : Rib) → flush_peer i m ≡ none → (without_peer i m ≡ m) × (routes i m ≡ 0)
unfolding flush_peer count
flush_peer-none i [] h = (refl, refl)
flush_peer-none i ((k, u) ∷ m) h = ground (arith, flush_peer-none i m)

flush_peer-some :
    (i : ℕ) (m m' : Rib)
    → flush_peer i m ≡ some m'
    → (without_peer i m' ≡ without_peer i m)
      × (routes i m ≡ suc (routes i m'))
      × (length m ≡ suc (length m'))
unfolding flush_peer count
flush_peer-some i [] m' h = absurd (ground arith)
flush_peer-some i ((k, u) ∷ m) m' h = elim (Bool-cases (u.nlri.bgp_id == i)) [
  | inl mine ↦ ground arith
  | inr other ↦ elim (Option-cases (flush_peer i m)) [
    | inl e ↦ absurd (ground arith)
    | inr (m'', e) ↦ ground (arith, flush_peer-some i m m'' e)
  ]
]

-- With fuel for every route of the table, the loop leaves exactly the routes of the other peers, in
-- their order, and takes one from the counter for each route of the peer: a counter that was `n`
-- above the number of its routes ends at `n`.
pub flush_peer_loop_lem :
    (fuel i n : ℕ) (m : Rib) (current : ℕ)
    → length m ≤ fuel
    → current ≡ (n + routes i m) % 2 ^ 32
    → (((flush_peer_loop fuel i m current).0) ≡ without_peer i m)
      × (((flush_peer_loop fuel i m current).1) ≡ n % 2 ^ 32)
unfolding flush_peer_loop
flush_peer_loop_lem zero i n [] current h e = unfold count in ground arith
flush_peer_loop_lem zero i n (x ∷ m) current h e = absurd (omega arith)
flush_peer_loop_lem (suc fuel) i n m current h e = elim (Option-cases (flush_peer i m)) [
  | inl p ↦ ground (arith, flush_peer-none i m p)
  | inr (m', p) ↦
      ground (arith, flush_peer-some i m m' p, flush_peer_loop_lem fuel i n m' (dec32 current))
]
