-- ===== src/Api/Match/Subnet.antt =====
-- src/bgp_update.cpp and api/bgp_api.cpp: the range that parse_nlri stores, and the test of a query
-- against it, decide whether an address is in a subnet.
use log2bgp.Base.{ℕ, ◌+◌, ◌-◌, ◌*◌, ◌/◌, ◌%◌, ◌≤◌, ◌≡◌, ◌↔◌, refl, sym, ap, subst, ◌∙◌, true, arith}
use log2bgp.Base.Words.{ntohl}
use log2bgp.Msg.{Nlri}
use log2bgp.Bgp.{NlriParse}
use log2bgp.Rib.{memcmp_lt-ntohl}
use log2bgp.Decode.Nlri.{new_nlri, get_ipv4_high_range}
use log2bgp.Decode.Nlri.Range.{size, size-pos, get_ipv4_high_range_lem}
use log2bgp.Api.Match.{in_range}
use native.Mathlib.Nat.{div-add-mod', mod-lt, div-eq_of_lt-le, suc-mul}

-- Two addresses have the same first `length` bits.
abbrev pub SameSubnet : ℕ → ℕ → ℕ → Type 0
SameSubnet length a b = ntohl a / size length ≡ ntohl b / size length

pub in_range-bounds :
    (ip : ℕ) (n : Nlri)
    → (in_range ip n ≡ true) ↔ ((ntohl n.prefix ≤ ntohl ip) × (ntohl ip ≤ ntohl n.prefix_highest))
unfolding in_range
in_range-bounds ip n = (
  λ h. ground (arith, memcmp_lt-ntohl ip n.prefix, memcmp_lt-ntohl n.prefix_highest ip),
  λ h. ground (arith, memcmp_lt-ntohl ip n.prefix, memcmp_lt-ntohl n.prefix_highest ip),
)

pub prefix-new_nlri :
    (flag : NlriParse) (now bgp_id length prefix : ℕ)
    → ((new_nlri flag now bgp_id length prefix).prefix ≡ prefix)
      × ((new_nlri flag now bgp_id length prefix).prefix_highest
          ≡ get_ipv4_high_range prefix length)
unfolding new_nlri
prefix-new_nlri NlriParse.update now bgp_id length prefix = (refl, refl)
prefix-new_nlri NlriParse.withdraw now bgp_id length prefix = (refl, refl)

-- Between the first and the last address of a block there are only addresses of the block.
pub same_block : (a b t : ℕ) → 1 ≤ t → a / t * t ≤ b → b ≤ a / t * t + (t - 1) → b / t ≡ a / t
same_block a b t h lo hi = div-eq_of_lt-le t lo (omega (arith, suc-mul (a / t) t))

pub in_block : (a b t : ℕ) → 1 ≤ t → b / t ≡ a / t → (a / t * t ≤ b) × (b ≤ a / t * t + (t - 1))
in_block a b t h e =
    let whole : b / t * t + b % t ≡ b = div-add-mod' b t in
    let here : a / t * t + b % t ≡ b = subst (λ q. q * t + b % t ≡ b) e whole in
    (omega arith, omega (arith, mod-lt b h))

-- A route that parse_nlri has made of a prefix of 1 to 32 bits, with no bits set behind these,
-- answers the query of an address exactly when the address has the same first bits.
pub in_range-new_nlri :
    (flag : NlriParse) (now bgp_id length prefix ip : ℕ)
    → 1 ≤ length
    → length ≤ 32
    → ntohl prefix % size length ≡ 0
    → (in_range ip (new_nlri flag now bgp_id length prefix) ≡ true) ↔ SameSubnet length ip prefix
in_range-new_nlri flag now bgp_id length prefix ip h k aligned =
    let n = new_nlri flag now bgp_id length prefix in
    let t = size length in
    let first : ntohl prefix / t * t ≡ ntohl prefix =
      omega (arith, div-add-mod' (ntohl prefix) t) in
    let last = get_ipv4_high_range_lem prefix length h k in
    let p = prefix-new_nlri flag now bgp_id length prefix in
    (
      λ e.
          let (lo, hi) = (in_range-bounds ip n).0 e in
          same_block (ntohl prefix) (ntohl ip) t (size-pos length)
            (subst (λ a. a ≤ ntohl ip) (ap ntohl (p.0) ∙ sym first) lo)
            (subst (λ a. ntohl ip ≤ a) (ap ntohl (p.1) ∙ last) hi),
      λ e.
          let (lo, hi) = in_block (ntohl prefix) (ntohl ip) t (size-pos length) e in
          (in_range-bounds ip n).1 (
            subst (λ a. a ≤ ntohl ip) (first ∙ ap ntohl (sym (p.0))) lo,
            subst (λ a. ntohl ip ≤ a) (sym (ap ntohl (p.1) ∙ last)) hi,
          ),
    )
