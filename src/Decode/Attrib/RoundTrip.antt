-- ===== src/Decode/Attrib/RoundTrip.antt =====
-- src/bgp_update.cpp: each path attribute is read into its field, and the cursor ends behind it.
use log2bgp.Base.{
  ℕ, suc, ◌+◌, ◌*◌, ◌^◌, ◌<◌, ◌≡◌, refl, ap, ◌∙◌, List, [], ◌∷◌, ◌++◌, length, append_assoc,
  get_elem?, drop, ◌==◌, if◌then◌else◌, arith, ok, drop_length,
}
use log2bgp.Base.Bytes.{le_bytes, length-le_bytes}
use log2bgp.Msg.{Update, CommunitySegment, path_attrib}
use log2bgp.Decode.Buffer.{byte_at, copy_u32}
use log2bgp.Decode.Nlri.RoundTrip.{bytes_at-drop, le_value-le_bytes}
use log2bgp.Decode.Attrib.{
  Cursor, advance, values16, values32, parse_as_path, parse_as4_path, parse_aggregator,
  parse_as4_aggregator, communities, parse_community, parse_value, parse_empty, parse_attrib,
}
use log2bgp.Decode.Attrib.Encode.{
  Attribute, be2, be4, be2s, be4s, community_bytes, code_of, value_bytes, set, Fits, encode_attrib,
}
use log2bgp.Decode.Attrib.Places.{plus_plus, at, at_start, after, be16-drop, be32-drop}

parse_attrib-head :
    (c : Cursor) (flags code n : ℕ) (p r : List ℕ)
    → drop (c.i + 1) p ≡ flags ∷ code ∷ n ∷ r
    → parse_attrib p c ≡ (
        if n == 0
        then ok (parse_empty (path_attrib code) (advance 3 c.update c))
        else parse_value (path_attrib code) n p (advance 3 c.update c))
unfolding byte_at parse_attrib get_elem?
parse_attrib-head c flags code n p r h =
    let xs : List ℕ = flags ∷ code ∷ n ∷ r in
    rw
      (
        at_start (c.i + 1) p xs h,
        ap (get_elem? p) (plus_plus c.i 1 1) ∙ at (c.i + 1) 1 p xs h,
        ap (get_elem? p) (plus_plus c.i 1 2) ∙ at (c.i + 1) 2 p xs h,
      )
      refl

shift : (i k : ℕ) → i + k + 1 ≡ i + 1 + k
shift i k = omega arith

values16-be2s :
    (offset : ℕ) (vs p r : List ℕ)
    → drop (offset + 1) p ≡ be2s vs ++ r
    → values16 p offset (length vs) ≡ ok vs
unfolding values16 be2s be2 drop
values16-be2s offset [] p r h = refl
values16-be2s offset (v ∷ vs) p r h =
    let rest : List ℕ = be2s vs ++ r in
    rw
      (
        be16-drop (offset + 1) v p rest h,
        values16-be2s (offset + 2) vs p r
            (ap (λ k. drop k p) (shift offset 2) ∙ after (offset + 1) 2 p (be2 v ++ rest) h),
      )
      refl

values32-be4s :
    (offset : ℕ) (vs p r : List ℕ)
    → drop (offset + 1) p ≡ be4s vs ++ r
    → values32 p offset (length vs) ≡ ok vs
unfolding values32 be4s be4 drop
values32-be4s offset [] p r h = refl
values32-be4s offset (v ∷ vs) p r h =
    let rest : List ℕ = be4s vs ++ r in
    rw
      (
        be32-drop (offset + 1) v p rest h,
        values32-be4s (offset + 4) vs p r
            (ap (λ k. drop k p) (shift offset 4) ∙ after (offset + 1) 4 p (be4 v ++ rest) h),
      )
      refl

communities-community_bytes :
    (offset : ℕ) (cs : List CommunitySegment) (p r : List ℕ)
    → drop (offset + 1) p ≡ community_bytes cs ++ r
    → communities p offset (length cs) ≡ ok cs
unfolding communities community_bytes be2 drop
communities-community_bytes offset [] p r h = refl
communities-community_bytes offset (c ∷ cs) p r h =
    let rest : List ℕ = community_bytes cs ++ r in
    let xs : List ℕ = be2 c.asn ++ (be2 c.value ++ rest) in
    rw
      (
        be16-drop (offset + 1) c.asn p (be2 c.value ++ rest) h,
        be16-drop (offset + 3) c.value p rest
            (ap (λ k. drop k p) (plus_plus offset 1 2) ∙ after (offset + 1) 2 p xs h),
        communities-community_bytes (offset + 4) cs p r
            (ap (λ k. drop k p) (shift offset 4) ∙ after (offset + 1) 4 p xs h),
      )
      refl

length-community_bytes : (cs : List CommunitySegment) → length (community_bytes cs) ≡ 4 * length cs
unfolding community_bytes be2
length-community_bytes [] = refl
length-community_bytes (c ∷ cs) = omega (arith, length-community_bytes cs)

length-be2s : (vs : List ℕ) → length (be2s vs) ≡ 2 * length vs
unfolding be2s be2
length-be2s [] = refl
length-be2s (v ∷ vs) = omega (arith, length-be2s vs)

-- The bytes of the value alone.
abbrev pub Sets : Attribute → Type 0
Sets a =
    (c : Cursor) (p r : List ℕ)
    → c.read_len < 2 ^ 16
    → c.update.ipv4_next_hop < 2 ^ 32
    → drop (c.i + 1) p ≡ value_bytes a ++ r
    → (if length (value_bytes a) == 0
        then ok (parse_empty (path_attrib (code_of a)) c)
        else parse_value (path_attrib (code_of a)) (length (value_bytes a)) p c)
      ≡ ok (advance (length (value_bytes a)) (set a c.update) c)

copy_u32_full :
    (v a i : ℕ) (p r : List ℕ)
    → v < 2 ^ 32
    → a < 2 ^ 32
    → drop i p ≡ le_bytes 4 a ++ r
    → copy_u32 v p i 4 ≡ ok a
unfolding copy_u32
copy_u32_full v a i p r w f h =
    ground (
      arith,
      (bytes_at-drop (le_bytes 4 a) i p r h).0,
      length-le_bytes 4 a,
      le_value-le_bytes 4 a f,
    )

value-Sets : (a : Attribute) → Fits a → Sets a
unfolding value_bytes code_of set parse_value parse_empty path_attrib byte_at get_elem?
    parse_as_path parse_as4_path parse_aggregator parse_as4_aggregator parse_community Fits drop be2
    be4
value-Sets (Attribute.origin v) f c p r l w h = rw (at_start (c.i + 1) p (v ∷ r) h) refl
value-Sets (Attribute.next_hop a) f c p r l w h =
    rw (length-le_bytes 4 a, copy_u32_full c.update.ipv4_next_hop a (c.i + 1) p r w f h) refl
value-Sets (Attribute.med n) f c p r l w h = rw (be32-drop (c.i + 1) n p r h) refl
value-Sets (Attribute.local_pref n) f c p r l w h = rw (be32-drop (c.i + 1) n p r h) refl
value-Sets Attribute.atomic_aggregate f c p r l w h = ground arith
value-Sets (Attribute.as_path t vs more) f c p r l w h =
    let xs : List ℕ = t ∷ length vs ∷ be2s vs ++ (more ++ r) in
    let k = h ∙ ap (λ l. t ∷ length vs ∷ l) (append_assoc (be2s vs) more r) in
    ground (
      arith,
      at_start (c.i + 1) p xs k,
      ap (get_elem? p) (plus_plus c.i 1 1) ∙ at (c.i + 1) 1 p xs k,
      values16-be2s (c.i + 2) vs p (more ++ r)
          (ap (λ k. drop k p) (shift c.i 2) ∙ after (c.i + 1) 2 p xs k),
    )
value-Sets (Attribute.as4_path t vs more) f c p r l w h =
    let xs : List ℕ = t ∷ length vs ∷ be4s vs ++ (more ++ r) in
    let k = h ∙ ap (λ l. t ∷ length vs ∷ l) (append_assoc (be4s vs) more r) in
    ground (
      arith,
      at_start (c.i + 1) p xs k,
      ap (get_elem? p) (plus_plus c.i 1 1) ∙ at (c.i + 1) 1 p xs k,
      values32-be4s (c.i + 2) vs p (more ++ r)
          (ap (λ k. drop k p) (shift c.i 2) ∙ after (c.i + 1) 2 p xs k),
    )
value-Sets (Attribute.aggregator n a) f c p r l w h =
    let xs : List ℕ = be2 n ++ (le_bytes 4 a ++ r) in
    rw
      (
        length-le_bytes 4 a,
        be16-drop (c.i + 1) n p (le_bytes 4 a ++ r) h,
        copy_u32_full 0 a (c.i + 3) p r (omega arith) f
            (ap (λ k. drop k p) (plus_plus c.i 1 2) ∙ after (c.i + 1) 2 p xs h),
      )
      refl
value-Sets (Attribute.as4_aggregator n a) f c p r l w h =
    let xs : List ℕ = be4 n ++ (le_bytes 4 a ++ r) in
    rw
      (
        length-le_bytes 4 a,
        be32-drop (c.i + 1) n p (le_bytes 4 a ++ r) h,
        copy_u32_full 0 a (c.i + 5) p r (omega arith) f
            (ap (λ k. drop k p) (plus_plus c.i 1 4) ∙ after (c.i + 1) 4 p xs h),
      )
      refl
value-Sets (Attribute.community cs) f c p r l w h =
    ground (arith, length-community_bytes cs, communities-community_bytes c.i cs p r h)

three_plus : (n : ℕ) → 3 + n ≡ suc (suc (suc n))
three_plus n = omega arith

advance-advance :
    (m n : ℕ) (u : Update) (c : Cursor) → advance n u (advance m c.update c) ≡ advance (m + n) u c
advance-advance m n u c = ground arith

-- A whole attribute at the cursor.
pub parse_attrib-encode_attrib :
    (flags : ℕ) (a : Attribute) (c : Cursor) (p r : List ℕ)
    → Fits a
    → c.update.ipv4_next_hop < 2 ^ 32
    → drop (c.i + 1) p ≡ encode_attrib flags a ++ r
    → (parse_attrib p c ≡ ok (advance (length (encode_attrib flags a)) (set a c.update) c))
      × (drop (c.i + length (encode_attrib flags a) + 1) p ≡ r)
unfolding encode_attrib drop
parse_attrib-encode_attrib flags a c p r f w h =
    let xs : List ℕ = flags ∷ code_of a ∷ length (value_bytes a) ∷ value_bytes a ++ r in
    (
      parse_attrib-head c flags (code_of a) (length (value_bytes a)) p (value_bytes a ++ r) h
          ∙ value-Sets a f (advance 3 c.update c) p r (omega arith) w
              (ap (λ k. drop k p) (shift c.i 3) ∙ after (c.i + 1) 3 p xs h)
          ∙ ap ok (advance-advance 3 (length (value_bytes a)) (set a c.update) c)
          ∙ ap (λ n. ok (advance n (set a c.update) c)) (three_plus (length (value_bytes a))),
      ap (λ k. drop k p) (shift c.i _)
          ∙ after (c.i + 1) (length (encode_attrib flags a)) p xs h
          ∙ (drop_length (encode_attrib flags a) r),
    )
