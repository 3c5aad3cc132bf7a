-- ===== src/Decode/Nlri/Bounds.antt =====
-- src/bgp_update.cpp: the five zero bytes behind a packet are enough for parse_nlri.
use log2bgp.Base.{
  ℕ, zero, suc, ◌+◌, ◌*◌, ◌/◌, ◌^◌, ◌≤◌, ◌<◌, ◌≡◌, ◌≢◌, ◌⊎◌, inl, inr, refl, sym, ap, ◌∙◌, false,
  some, List, [], ◌∷◌, ◌++◌, length, get_elem?, replicate, leb, ◌==◌, arith, Result, ok, fault,
  write_out_of_bounds, Bool-cases, subst, ==→eq,
}
use log2bgp.Msg.{Update}
use log2bgp.Bgp.{Bgp, NlriParse}
use log2bgp.Decode.Buffer.{byte_at, bytes_at, le_value, copy_u32}
use log2bgp.Decode.Nlri.Turn.{parse_nlri-turn, parse_nlri-end}
use log2bgp.Decode.Nlri.{byte_length, new_nlri, push, parse_nlri}

abbrev pub zeros : List ℕ
zeros = replicate 5 0

zeros-get_elem? : (i : ℕ) → i < 5 → get_elem? zeros i ≡ some 0
unfolding get_elem?
zeros-get_elem? zero h = refl
zeros-get_elem? (suc zero) h = refl
zeros-get_elem? (suc (suc zero)) h = refl
zeros-get_elem? (suc (suc (suc zero))) h = refl
zeros-get_elem? (suc (suc (suc (suc zero)))) h = refl
zeros-get_elem? (suc (suc (suc (suc (suc i))))) h = absurd (omega arith)

padded-get_elem? :
    (body : List ℕ) (i : ℕ)
    → i < length body + 5
    → (x : ℕ) × (get_elem? (body ++ zeros) i ≡ some x) × (length body ≤ i → x ≡ 0)
unfolding get_elem?
padded-get_elem? [] i h = (0, zeros-get_elem? i h, λ _. refl)
padded-get_elem? (b ∷ body) zero h = (b, refl, λ k. absurd (omega arith))
padded-get_elem? (b ∷ body) (suc i) h =
    let (x, e, k) = padded-get_elem? body i (omega arith) in (x, e, λ l. k (omega arith))

bytes_at-ok :
    (k i : ℕ) (body : List ℕ)
    → i + k ≤ length body + 5
    → (bs : List ℕ) × (bytes_at (body ++ zeros) i k ≡ ok bs)
unfolding bytes_at byte_at
bytes_at-ok zero i body h = ([], refl)
bytes_at-ok (suc k) i body h =
    let (x, e, l) = padded-get_elem? body i (omega arith) in
    let (bs, g) = bytes_at-ok k (suc i) body (omega arith) in (x ∷ bs, ground arith)

-- It returns, or a prefix is longer than 32 bits.
abbrev pub Bounded : Result Bgp → Type 0
Bounded r = ((b : Bgp) × (r ≡ ok b)) ⊎ (r ≡ fault write_out_of_bounds)

copy_u32-bounded :
    (n i : ℕ) (body : List ℕ)
    → i + 4 ≤ length body + 5
    → ((v : ℕ) × (copy_u32 0 (body ++ zeros) i n ≡ ok v) × (n ≤ 4))
      ⊎ (copy_u32 0 (body ++ zeros) i n ≡ fault write_out_of_bounds)
unfolding copy_u32
copy_u32-bounded n i body h = elim (Bool-cases (leb n 4)) [
  | inl e ↦
      let (bs, g) = bytes_at-ok n i body (ground arith) in
      inl (0 / 256 ^ length bs * 256 ^ length bs + le_value bs, ground arith, ground arith)
  | inr e ↦ inr (ground arith)
]

parse_nlri-long :
    (fuel offset now bgp_id x : ℕ) (flag : NlriParse) (body : List ℕ) (u : Update) (b : Bgp)
    → get_elem? (body ++ zeros) offset ≡ some x
    → (x == 0) ≡ false
    → copy_u32 0 (body ++ zeros) (offset + 1) (byte_length x) ≡ fault write_out_of_bounds
    → parse_nlri (suc fuel) flag now bgp_id (body ++ zeros) offset u b ≡ fault write_out_of_bounds
unfolding parse_nlri byte_at
parse_nlri-long fuel offset now bgp_id x flag body u b e q c = ground arith

inside : (x offset n : ℕ) → (n ≤ offset → x ≡ 0) → (x == 0) ≡ false → (offset < n) × (x ≢ 0)
inside x offset n z q = elim (Bool-cases (leb n offset)) [
  | inl e ↦ let w = z (ground arith) in absurd (ground arith)
  | inr e ↦ (ground arith, ground arith)
]

pub parse_nlri-Bounded :
    (fuel offset now bgp_id : ℕ) (flag : NlriParse) (body : List ℕ) (u : Update) (b : Bgp)
    → offset ≤ length body + 4
    → length body + 5 < fuel + offset
    → Bounded (parse_nlri fuel flag now bgp_id (body ++ zeros) offset u b)
parse_nlri-Bounded zero offset now bgp_id flag body u b h k = absurd (omega arith)
parse_nlri-Bounded (suc fuel) offset now bgp_id flag body u b h k =
    let (x, e, z) = padded-get_elem? body offset (omega arith) in
    elim (Bool-cases (x == 0)) [
      | inl q ↦ inl (
        b,
        parse_nlri-end fuel offset now bgp_id flag (body ++ zeros) u b (e ∙ ap some (==→eq x 0 q)),
      )
      | inr q ↦
          let (i, ne) = inside x offset (length body) z q in
          elim (copy_u32-bounded (byte_length x) (offset + 1) body (omega arith)) [
            | inl (v, c, n) ↦
                let u' = record u { nlri = new_nlri flag now bgp_id x v } in
                subst Bounded
                  (sym (parse_nlri-turn fuel offset now bgp_id x v flag (body ++ zeros) u b e ne c))
                  (parse_nlri-Bounded fuel (offset + 1 + byte_length x) now bgp_id flag body u'
                    (push flag u' b) (omega arith) (omega arith))
            | inr c ↦ inr (parse_nlri-long fuel offset now bgp_id x flag body u b e q c)
          ]
    ]
