-- ===== src/Decode/Nlri/RoundTrip.antt =====
-- src/bgp_update.cpp: parse_nlri reads every prefix of a message once, in order.
use log2bgp.Base.{
  ℕ, zero, suc, ◌+◌, ◌/◌, ◌^◌, ◌≤◌, ◌<◌, ◌≡◌, ◌≢◌, ap, ◌∙◌, some, List, [], ◌∷◌, ◌++◌, length,
  get_elem?, drop, append_assoc, arith, ok, All, map, append-nil,
}
use log2bgp.Base.Bytes.{le_bytes, length-le_bytes}
use log2bgp.Msg.{Update, assign}
use log2bgp.Bgp.{Bgp, NlriParse}
use log2bgp.Decode.Buffer.{byte_at, bytes_at, le_value, copy_u32}
use log2bgp.Decode.Nlri.{byte_length, new_nlri, push, parse_nlri}
use log2bgp.Decode.Nlri.Turn.{parse_nlri-turn, parse_nlri-end}
use native.Mathlib.Nat.{pow-suc}

-- A prefix of a message: its length in bits and its address.
pub record Route : Type 0 where
  pub prefix_length : ℕ
  pub prefix : ℕ

-- The bytes that a prefix of this many bits takes on the wire.
abbrev pub wire_length : ℕ → ℕ
wire_length bits = (bits + 7) / 8

byte_length-wire_length : (n : ℕ) → byte_length n ≡ wire_length n
unfolding byte_length
byte_length-wire_length n = ground arith

-- A length from 1 to 32, and an address in the bytes that it takes.
abbrev pub IsRoute : Route → Type 0
IsRoute r =
    (0 < r.prefix_length) × (r.prefix_length ≤ 32) × (r.prefix < 256 ^ wire_length r.prefix_length)

-- The prefixes on the wire: each length, then the bytes of the address.
unfoldable pub encode_routes : List Route → List ℕ
encode_routes [] = []
encode_routes (r ∷ rs) =
    r.prefix_length ∷ le_bytes (wire_length r.prefix_length) r.prefix ++ encode_routes rs

pub drop-cons :
    (i x : ℕ) (p r : List ℕ) → drop i p ≡ x ∷ r → (get_elem? p i ≡ some x) × (drop (suc i) p ≡ r)
unfolding drop get_elem?
drop-cons zero x [] r h = ground arith
drop-cons zero x (y ∷ p) r h = ground arith
drop-cons (suc i) x [] r h = ground arith
drop-cons (suc i) x (y ∷ p) r h = drop-cons i x p r h

pub bytes_at-drop :
    (bs : List ℕ) (i : ℕ) (p r : List ℕ)
    → drop i p ≡ bs ++ r
    → (bytes_at p i (length bs) ≡ ok bs) × (drop (i + length bs) p ≡ r)
unfolding bytes_at byte_at
bytes_at-drop [] i p r h = ground arith
bytes_at-drop (b ∷ bs) i p r h =
    ground (arith, drop-cons i b p (bs ++ r) h, bytes_at-drop bs (suc i) p r)

pub le_value-le_bytes : (n v : ℕ) → v < 256 ^ n → le_value (le_bytes n v) ≡ v
unfolding le_value le_bytes
le_value-le_bytes zero v h = ground arith
le_value-le_bytes (suc n) v h = ground (arith, le_value-le_bytes n (v / 256), pow-suc 256 n)

wire_length-le_4 : (n : ℕ) → n ≤ 32 → wire_length n ≤ 4
wire_length-le_4 n h = omega arith

add-suc : (i n : ℕ) → suc i + n ≡ i + suc n
add-suc i n = omega arith

pub copy_u32-drop :
    (n v i : ℕ) (p r : List ℕ)
    → n ≤ 4
    → v < 256 ^ n
    → drop i p ≡ le_bytes n v ++ r
    → (copy_u32 0 p i n ≡ ok v) × (drop (i + n) p ≡ r)
unfolding copy_u32
copy_u32-drop n v i p r h k e =
    let (got, next) = bytes_at-drop (le_bytes n v) i p r e in
    ground (arith, got, next, length-le_bytes n v, le_value-le_bytes n v k)

-- The pushes of the routes `rs`, one after the other.
unfoldable push_routes : NlriParse → ℕ → ℕ → Update → List Route → Bgp → Bgp
push_routes flag now bgp_id u [] b = b
push_routes flag now bgp_id u (r ∷ rs) b =
    let u' = record u { nlri = new_nlri flag now bgp_id r.prefix_length r.prefix } in
    push_routes flag now bgp_id u' rs (push flag u' b)

positive-ne : (n : ℕ) → 0 < n → n ≢ 0
positive-ne n h = omega arith

plus_one : (i : ℕ) → i + 1 ≡ suc i
plus_one i = omega arith

pushes-encode_routes :
    (fuel i now bgp_id : ℕ) (flag : NlriParse) (rs : List Route) (p rest : List ℕ) (u : Update)
    (b : Bgp)
    → length rs < fuel
    → All IsRoute rs
    → drop i p ≡ encode_routes rs ++ (0 ∷ rest)
    → parse_nlri fuel flag now bgp_id p i u b ≡ ok (push_routes flag now bgp_id u rs b)
unfolding encode_routes push_routes
pushes-encode_routes zero i now bgp_id flag rs p rest u b h w e = absurd (omega arith)
pushes-encode_routes (suc fuel) i now bgp_id flag [] p rest u b h w e =
    parse_nlri-end fuel i now bgp_id flag p u b ((drop-cons i 0 p rest e).0)
pushes-encode_routes (suc fuel) i now bgp_id flag (r ∷ rs) p rest u b h w e =
    let tail : List ℕ = encode_routes rs ++ (0 ∷ rest) in
    let bytes : List ℕ = le_bytes (wire_length r.prefix_length) r.prefix in
    let (got, next) =
      drop-cons i r.prefix_length p (bytes ++ tail)
        (e ∙ ap (◌∷◌ r.prefix_length) (append_assoc bytes (encode_routes rs) (0 ∷ rest))) in
    let (copied, after) =
      copy_u32-drop (wire_length r.prefix_length) r.prefix (suc i) p tail
        (wire_length-le_4 r.prefix_length ((w.0).1)) ((w.0).2) next in
    parse_nlri-turn fuel i now bgp_id r.prefix_length r.prefix flag p u b got
      (positive-ne r.prefix_length ((w.0).0))
      (rw (plus_one i, byte_length-wire_length r.prefix_length) copied)
    ∙ pushes-encode_routes fuel (i + 1 + byte_length r.prefix_length) now bgp_id flag rs p rest
        (record u { nlri = new_nlri flag now bgp_id r.prefix_length r.prefix })
        (push flag (record u { nlri = new_nlri flag now bgp_id r.prefix_length r.prefix }) b)
        (omega arith) (w.1) (rw (plus_one i, byte_length-wire_length r.prefix_length) after)

-- What is queued for a route.
unfoldable pub queued : NlriParse → ℕ → ℕ → Update → Route → Update
queued flag now bgp_id u r =
    assign (record u { nlri = new_nlri flag now bgp_id r.prefix_length r.prefix })

-- Updates at the end of the queue of a kind.
unfoldable pub append_queue : NlriParse → List Update → Bgp → Bgp
append_queue NlriParse.update us b = record b { adj_rib_in_q = b.adj_rib_in_q ++ us }
append_queue NlriParse.withdraw us b = record b { adj_rib_in_wdraw_q = b.adj_rib_in_wdraw_q ++ us }

push_routes-append_queue :
    (flag : NlriParse) (now bgp_id : ℕ) (u : Update) (rs : List Route) (b : Bgp)
    → push_routes flag now bgp_id u rs b ≡ append_queue flag (map (queued flag now bgp_id u) rs) b
unfolding push_routes append_queue queued push
push_routes-append_queue NlriParse.update now bgp_id u [] b =
    ground (arith, append-nil b.adj_rib_in_q)
push_routes-append_queue NlriParse.withdraw now bgp_id u [] b =
    ground (arith, append-nil b.adj_rib_in_wdraw_q)
push_routes-append_queue NlriParse.update now bgp_id u (r ∷ rs) b =
    let u' = record u { nlri = new_nlri NlriParse.update now bgp_id r.prefix_length r.prefix } in
    push_routes-append_queue NlriParse.update now bgp_id u' rs (push NlriParse.update u' b)
    ∙ ap (λ q. record b { adj_rib_in_q = q })
        (append_assoc b.adj_rib_in_q (assign u' ∷ [])
          (map (queued NlriParse.update now bgp_id u) rs))
push_routes-append_queue NlriParse.withdraw now bgp_id u (r ∷ rs) b =
    let u' = record u { nlri = new_nlri NlriParse.withdraw now bgp_id r.prefix_length r.prefix } in
    push_routes-append_queue NlriParse.withdraw now bgp_id u' rs (push NlriParse.withdraw u' b)
    ∙ ap (λ q. record b { adj_rib_in_wdraw_q = q })
        (append_assoc b.adj_rib_in_wdraw_q (assign u' ∷ [])
          (map (queued NlriParse.withdraw now bgp_id u) rs))

-- From a place of the packet where prefixes with lengths from 1 to 32 stand, ended by a zero byte,
-- parse_nlri with more fuel than prefixes returns, and appends exactly these prefixes, in order, to
-- the queue of its kind.
pub parse_nlri-encode_routes :
    (fuel i now bgp_id : ℕ) (flag : NlriParse) (rs : List Route) (p rest : List ℕ) (u : Update)
    (b : Bgp)
    → length rs < fuel
    → All IsRoute rs
    → drop i p ≡ encode_routes rs ++ (0 ∷ rest)
    → parse_nlri fuel flag now bgp_id p i u b
      ≡ ok (append_queue flag (map (queued flag now bgp_id u) rs) b)
parse_nlri-encode_routes fuel i now bgp_id flag rs p rest u b h w e =
    pushes-encode_routes fuel i now bgp_id flag rs p rest u b h w e
    ∙ ap ok (push_routes-append_queue flag now bgp_id u rs b)
