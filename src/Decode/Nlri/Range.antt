-- ===== src/Decode/Nlri/Range.antt =====
-- src/bgp_update.cpp: the range of a prefix, as addresses in host byte order.
use log2bgp.Base.{
  ℕ, zero, suc, ◌+◌, ◌-◌, ◌*◌, ◌/◌, ◌%◌, ◌^◌, ◌≤◌, ◌<◌, ◌≡◌, sym, ap, subst, ◌∙◌, arith, bit_or,
}
use log2bgp.Base.Bits.{bit_or-ones}
use log2bgp.Base.Words.{ntohl, ntohl-lt, ntohl-ntohl}
use log2bgp.Decode.Nlri.{net_mask, get_ipv4_high_range}
use native.Mathlib.Nat.{
  one-le-pow, pow-le-pow_right, mod-lt, div-add-mod', pow-succ', mul_assoc, suc-mul,
  mul-le-mul_right, div-lt_iff_lt-mul,
}

-- The number of addresses of a prefix of this length.
abbrev pub size : ℕ → ℕ
size length = 2 ^ (32 - length)

size-le : (length : ℕ) → size length ≤ 2 ^ 32
size-le length = pow-le-pow_right {n = 2} (omega arith) {j = 32} (omega arith)

pub size-pos : (length : ℕ) → 1 ≤ size length
size-pos length = one-le-pow (32 - length) 2 (omega arith)

host_mask : (length : ℕ) → 1 ≤ length → 2 ^ 32 - 1 - net_mask length ≡ size length - 1
unfolding net_mask
host_mask length h = omega (arith, size-le length, size-pos length)

two_pow_add : (n m : ℕ) → 2 ^ n * 2 ^ m ≡ 2 ^ (n + m)
two_pow_add zero m = ground arith
two_pow_add (suc n) m =
    ap (λ t. t * 2 ^ m) (pow-succ' 2 n)
    ∙ mul_assoc 2 (2 ^ n) (2 ^ m)
    ∙ ap (λ t. 2 * t) (two_pow_add n m)
    ∙ sym (pow-succ' 2 (n + m))
    ∙ ap (λ k. 2 ^ k) (omega arith)

-- The whole block of an address ends within 32 bits.
block_end :
    (a length : ℕ) → a < 2 ^ 32 → length ≤ 32 → a / size length * size length + size length ≤ 2 ^ 32
block_end a length h k =
    let q = a / size length in
    let blocks : 2 ^ length * size length ≡ 2 ^ 32 =
      two_pow_add length (32 - length) ∙ ap (λ n. 2 ^ n) {y = 32} (omega arith) in
    let below : q < 2 ^ length =
      (div-lt_iff_lt-mul (size-pos length)).1 (subst (λ n. a < n) (sym blocks) h) in
    omega (arith, blocks, suc-mul q (size length), mul-le-mul_right (size length) below)

or_ones :
    (a length : ℕ) → bit_or a (size length - 1) ≡ a / size length * size length + (size length - 1)
or_ones a length =
    ap (λ n. bit_or n (size length - 1)) (sym (div-add-mod' a (size length)))
    ∙ bit_or-ones (32 - length) (a / size length) (a % size length) (mod-lt a (size-pos length))

-- The last address with the same first `length` bits.
pub get_ipv4_high_range_lem :
    (prefix length : ℕ)
    → 1 ≤ length
    → length ≤ 32
    → ntohl (get_ipv4_high_range prefix length)
      ≡ ntohl prefix / size length * size length + (size length - 1)
unfolding get_ipv4_high_range
get_ipv4_high_range_lem prefix length h k =
    let a = ntohl prefix in
    ap (λ m. ntohl (ntohl (bit_or a m))) (host_mask length h)
    ∙ ap (λ n. ntohl (ntohl n)) (or_ones a length)
    ∙ ntohl-ntohl (a / size length * size length + (size length - 1))
        (omega (arith, block_end a length (ntohl-lt prefix) k, size-pos length))
