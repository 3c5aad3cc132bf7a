-- ===== src/Decode/Withdraw.antt =====
-- src/bgp_update.cpp: a whole message that withdraws routes, from the queue of the peer to the
-- queue of the table.
use log2bgp.Base.{
  ℕ, ◌+◌, ◌*◌, ◌/◌, ◌%◌, ◌^◌, ◌≤◌, ◌<◌, ap, append_assoc, ◌≡◌, ◌≢◌, refl, sym, ◌∙◌, subst, List, [],
  ◌∷◌, ◌++◌, map, length, take, take_all, All, length-append, arith, ok, get_elem?, drop,
}
use log2bgp.Base.Bytes.{le_bytes}
use log2bgp.Msg.{empty_update}
use log2bgp.Peer.{QueueData}
use log2bgp.Bgp.{Bgp, NlriParse}
use log2bgp.Decode.{padded, process_packet}
use log2bgp.Decode.Buffer.{byte_at, be16}
use log2bgp.Decode.Nlri.{parse_nlri}
use log2bgp.Decode.Nlri.Bounds.{Bounded, parse_nlri-Bounded, zeros}
use log2bgp.Decode.Nlri.RoundTrip.{
  wire_length, Route, IsRoute, encode_routes, queued, append_queue, parse_nlri-encode_routes,
}

process_packet-withdraw :
    (now bgp_id len : ℕ) (packet : List ℕ) (b : Bgp)
    → be16 packet 0 ≡ ok len
    → len ≢ 0
    → process_packet now bgp_id packet b
      ≡ parse_nlri (length packet + 1) NlriParse.withdraw now bgp_id packet 2 empty_update b
unfolding process_packet
process_packet-withdraw now bgp_id len packet b h k = ground arith

-- A packet with a length of withdrawn routes that is not 0, whatever its bytes are, is read inside
-- its padded buffer to the end: it is handled, or a prefix in it is longer than 32 bits.
pub process_packet-Bounded :
    (now bgp_id len : ℕ) (q : QueueData) (b : Bgp)
    → be16 (padded q) 0 ≡ ok len
    → len ≢ 0
    → Bounded (process_packet now bgp_id (padded q) b)
unfolding padded
process_packet-Bounded now bgp_id len q b h k =
    let body : List ℕ = take q.length q.packet in
    subst Bounded (sym (process_packet-withdraw now bgp_id len (body ++ zeros) b h k)) (
      parse_nlri-Bounded (length (body ++ zeros) + 1) 2 now bgp_id NlriParse.withdraw body
        empty_update b (omega arith) (omega (arith, length-append body zeros)))

pub be16-front : (a b : ℕ) (r : List ℕ) → be16 (a ∷ b ∷ r) 0 ≡ ok (a * 2 ^ 8 + b)
unfolding be16 byte_at get_elem?
be16-front a b r = refl

-- An UPDATE that withdraws routes and announces none: the length of the routes, the routes, and the
-- length 0 of the attributes.
unfoldable pub withdraw_packet : List Route → QueueData
withdraw_packet rs =
    let n = length (encode_routes rs) in
    let packet = n / 2 ^ 8 ∷ n % 2 ^ 8 ∷ encode_routes rs ++ (0 ∷ 0 ∷ []) in
    record { length = length packet; packet = packet }

pub length-encode_routes : (rs : List Route) → length rs ≤ length (encode_routes rs)
unfolding encode_routes
length-encode_routes [] = omega arith
length-encode_routes (r ∷ rs) = omega (
  arith,
  length-append (le_bytes (wire_length r.prefix_length) r.prefix) (encode_routes rs),
  length-encode_routes rs,
)

-- An UPDATE that withdraws routes with lengths from 1 to 32, at least one and less than 65,536 bytes
-- in all, and has no attributes, is decoded into exactly these routes: each is appended, in order, to
-- the queue of withdrawals. The length of the attributes, which is 0, ends the routes.
pub process_packet-withdraw_packet :
    (now bgp_id : ℕ) (rs : List Route) (b : Bgp)
    → 0 < length rs
    → length (encode_routes rs) < 2 ^ 16
    → All IsRoute rs
    → process_packet now bgp_id (padded (withdraw_packet rs)) b
      ≡ ok (
          append_queue NlriParse.withdraw
            (map (queued NlriParse.withdraw now bgp_id empty_update) rs)
            b)
unfolding padded withdraw_packet drop
process_packet-withdraw_packet now bgp_id rs b some_route short w =
    let n = length (encode_routes rs) in
    let body : List ℕ = encode_routes rs ++ (0 ∷ 0 ∷ []) in
    let packet : List ℕ = n / 2 ^ 8 ∷ n % 2 ^ 8 ∷ body in
    rw (take_all body) (
      process_packet-withdraw now bgp_id n (packet ++ zeros) b
        (be16-front (n / 2 ^ 8) (n % 2 ^ 8) (body ++ zeros) ∙ ap ok (omega arith))
        (λ e. omega (arith, e, length-encode_routes rs))
      ∙ parse_nlri-encode_routes (length (packet ++ zeros) + 1) 2 now bgp_id NlriParse.withdraw rs
          (packet ++ zeros) (0 ∷ zeros) empty_update b
          (omega (
            arith,
            length-encode_routes rs,
            length-append (encode_routes rs) (0 ∷ 0 ∷ []),
            length-append body zeros,
          ))
          w (append_assoc (encode_routes rs) (0 ∷ 0 ∷ []) zeros))
