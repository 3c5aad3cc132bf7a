-- ===== src/World/Query.antt =====
-- api/bgp_api.cpp, cli/bgp_cli.cpp and src/bgp_update.cpp: which routes of the daemon answer the
-- query of an address.
use log2bgp.Base.{
  ℕ, ◌≤◌, ◌≡◌, ◌↔◌, sym, ap, subst, ◌∙◌, true, List, [], ◌∷◌, Bool-cases, inl, inr, arith,
}
use log2bgp.Base.Words.{ntohl}
use log2bgp.Msg.{Update, assign}
use log2bgp.Bgp.{Bgp, init_bgp}
use log2bgp.Rib.{Rib}
use log2bgp.OrderedMap.Laws.{Each}
use log2bgp.Decode.Nlri.Range.{size, size-pos, get_ipv4_high_range_lem}
use log2bgp.Decode.Nlri.{new_nlri}
use log2bgp.Api.Match.{in_range, prefix_matches}
use log2bgp.Api.Match.Subnet.{SameSubnet, in_range-bounds, prefix-new_nlri, same_block, in_block}
use log2bgp.World.Sound.{IsRouted, IsRouted-key}
use log2bgp.World.{Reach}
use log2bgp.World.Invariant.{Reach-Sound}
use native.Mathlib.Nat.{div-add-mod'}

-- The address has the first bits of the route, and is not below the prefix as it was sent.
abbrev pub Answers : ℕ → Update → Type 0
Answers ip u = SameSubnet u.nlri.prefix_length ip u.nlri.prefix × (ntohl u.nlri.prefix ≤ ntohl ip)

-- The list has a copy of each route of the table with the property, in the order of the table, and
-- nothing else.
pub data Selects (P : Update → Type 0) : Rib → List Update → Type 0 where
  ends : Selects P [] []
  takes :
      (k : _) (u : Update) (m : Rib) (us : List Update)
      → P u
      → Selects P m us
      → Selects P ((k, u) ∷ m) (assign u ∷ us)
  skips :
      (k : _) (u : Update) (m : Rib) (us : List Update)
      → ¬ P u
      → Selects P m us
      → Selects P ((k, u) ∷ m) us

range-new_nlri :
    (ip : ℕ) (u : Update) (w : IsRouted u)
    → (in_range ip u.nlri ≡ true)
      ↔ (SameSubnet w.prefix_length ip w.prefix × (ntohl w.prefix ≤ ntohl ip))
range-new_nlri ip u w =
    let n = new_nlri w.flag w.now w.bgp_id w.prefix_length w.prefix in
    let t = size w.prefix_length in
    let whole = div-add-mod' (ntohl w.prefix) t in
    let last = get_ipv4_high_range_lem w.prefix w.prefix_length w.positive w.short in
    let p = prefix-new_nlri w.flag w.now w.bgp_id w.prefix_length w.prefix in
    subst
      (λ x.
        (in_range ip x ≡ true)
        ↔ (SameSubnet w.prefix_length ip w.prefix × (ntohl w.prefix ≤ ntohl ip)))
      (sym w.made)
      (
        λ e.
            let (lo, hi) = (in_range-bounds ip n).0 e in
            let low = subst (λ a. a ≤ ntohl ip) (ap ntohl (p.0)) lo in
            (
              same_block (ntohl w.prefix) (ntohl ip) t (size-pos w.prefix_length) (omega arith)
                  (subst (λ a. ntohl ip ≤ a) (ap ntohl (p.1) ∙ last) hi),
              low,
            ),
        λ (same, low).
            let (lo, hi) = in_block (ntohl w.prefix) (ntohl ip) t (size-pos w.prefix_length) same in
            (in_range-bounds ip n).1 (
              subst (λ a. a ≤ ntohl ip) (ap ntohl (sym (p.0))) low,
              subst (λ a. ntohl ip ≤ a) (sym (ap ntohl (p.1) ∙ last)) hi,
            ),
      )

in_range-Answers : (ip : ℕ) (u : Update) → IsRouted u → (in_range ip u.nlri ≡ true) ↔ Answers ip u
in_range-Answers ip u w =
    let (p, i, l) = IsRouted-key u w in
    subst
      (λ a.
        (in_range ip u.nlri ≡ true) ↔ (SameSubnet u.nlri.prefix_length ip a × (ntohl a ≤ ntohl ip)))
      (sym p)
      (subst
        (λ a.
          (in_range ip u.nlri ≡ true) ↔ (SameSubnet a ip w.prefix × (ntohl w.prefix ≤ ntohl ip)))
        (sym l) (range-new_nlri ip u w))

prefix_matches-Selects :
    (ip : ℕ) (m : Rib) → Each (λ k u. IsRouted u) m → Selects (Answers ip) m (prefix_matches ip m)
unfolding prefix_matches
prefix_matches-Selects ip [] w = Selects.ends
prefix_matches-Selects ip ((k, u) ∷ m) w = elim (Bool-cases (in_range ip u.nlri)) [
  | inl e ↦
      rw (e, prefix_matches)
        (Selects.takes k u m _ ((in_range-Answers ip u w.0).0 e) (prefix_matches-Selects ip m w.1))
  | inr e ↦
      rw (e, prefix_matches)
        (Selects.skips k u m _ (λ a. absurd (ground (arith, (in_range-Answers ip u w.0).1 a)))
          (prefix_matches-Selects ip m w.1))
]

-- In every state that is reached from the start by steps of the threads and the commands in any order,
-- those with a table that is partly flushed or filled included, the loop of a query copies, in the
-- order of the table and without any other, exactly the routes that have the first bits of the
-- address (as many as the prefix length) and a prefix, as it was sent, that is not above the address.
pub Reach-prefix_matches :
    (asn ip : ℕ) {b : Bgp}
    → Reach (init_bgp asn) b
    → Selects (Answers ip) b.adj_rib_in (prefix_matches ip b.adj_rib_in)
Reach-prefix_matches asn ip {b} r =
    prefix_matches-Selects ip b.adj_rib_in (Reach-Sound asn r).table.routed
