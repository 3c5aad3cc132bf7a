-- ===== src/Decode/Announce.antt =====
-- src/bgp_update.cpp: a whole message that announces routes, from the queue of the peer to the queue
-- of the table.
use log2bgp.Base.{
  ℕ, zero, suc, ◌+◌, ◌*◌, ◌/◌, ◌%◌, ◌^◌, ◌≤◌, ◌<◌, ◌≡◌, refl, ◌∙◌, ap, List, [], ◌∷◌, ◌++◌, map,
  length, take_all, All, replicate, append_assoc, length-append, arith, ok, drop, drop_length,
  get_elem?,
}
use log2bgp.Msg.{Update, empty_update}
use log2bgp.Peer.{QueueData}
use log2bgp.Bgp.{Bgp, NlriParse}
use log2bgp.Decode.{padded, process_packet, process_announce}
use log2bgp.Decode.Buffer.{byte_at, be16}
use log2bgp.Decode.Nlri.{parse_nlri}
use log2bgp.Decode.Nlri.Bounds.{zeros}
use log2bgp.Decode.Nlri.RoundTrip.{
  Route, IsRoute, encode_routes, queued, append_queue, parse_nlri-encode_routes,
}
use log2bgp.Decode.Withdraw.{length-encode_routes, be16-front}
use log2bgp.Decode.Attrib.{Cursor, advance, parse_attrib, parse_attribs}
use log2bgp.Decode.Attrib.Encode.{Attribute, Fits, set, encode_attrib}
use log2bgp.Decode.Attrib.Places.{drop-drop}
use log2bgp.Decode.Attrib.RoundTrip.{parse_attrib-encode_attrib}

-- Attributes with their flags, on the wire and as fields.
abbrev pub Flagged : Type 0
Flagged = ℕ × Attribute

unfoldable pub encode_attribs : List Flagged → List ℕ
encode_attribs [] = []
encode_attribs ((flags, a) ∷ ats) = encode_attrib flags a ++ encode_attribs ats

unfoldable pub set_all : List Flagged → Update → Update
set_all [] u = u
set_all ((flags, a) ∷ ats) u = set_all ats (set a u)

abbrev pub AllFit : List Flagged → Type 0
AllFit ats = All (λ f. Fits (f.1)) ats

set-next_hop :
    (a : Attribute) (u : Update)
    → Fits a
    → u.ipv4_next_hop < 2 ^ 32
    → (set a u).ipv4_next_hop < 2 ^ 32
unfolding set Fits
set-next_hop (Attribute.origin v) u f w = w
set-next_hop (Attribute.next_hop n) u f w = f
set-next_hop (Attribute.med n) u f w = w
set-next_hop (Attribute.local_pref n) u f w = w
set-next_hop Attribute.atomic_aggregate u f w = w
set-next_hop (Attribute.as_path t vs more) u f w = w
set-next_hop (Attribute.as4_path t vs more) u f w = w
set-next_hop (Attribute.aggregator n a) u f w = w
set-next_hop (Attribute.as4_aggregator n a) u f w = w
set-next_hop (Attribute.community cs) u f w = w

length-encode_attrib : (flags : ℕ) (a : Attribute) → 3 ≤ length (encode_attrib flags a)
unfolding encode_attrib
length-encode_attrib flags a = omega arith

length-encode_attribs : (ats : List Flagged) → length ats ≤ length (encode_attribs ats)
unfolding encode_attribs
length-encode_attribs [] = omega arith
length-encode_attribs ((flags, a) ∷ ats) = omega (
  arith,
  length-encode_attrib flags a,
  length-append (encode_attrib flags a) (encode_attribs ats),
  length-encode_attribs ats,
)

parse_attribs-end :
    (fuel len : ℕ) (c : Cursor) (p : List ℕ)
    → len ≤ c.read_len
    → parse_attribs (suc fuel) p len c ≡ ok c
unfolding parse_attribs
parse_attribs-end fuel len c p h = ground arith

parse_attribs-turn :
    (fuel len : ℕ) (c d : Cursor) (p : List ℕ)
    → c.read_len < len
    → parse_attrib p c ≡ ok d
    → parse_attribs (suc fuel) p len c ≡ parse_attribs fuel p len d
unfolding parse_attribs
parse_attribs-turn fuel len c d p h e = ground arith

-- Where the attributes end exactly at path_attrib_len, the loop returns, behind them, with the
-- fields of all of them set.
pub parse_attribs-encode_attribs :
    (fuel len : ℕ) (ats : List Flagged) (c : Cursor) (p r : List ℕ)
    → length ats < fuel
    → len < 2 ^ 16
    → AllFit ats
    → c.update.ipv4_next_hop < 2 ^ 32
    → c.read_len + length (encode_attribs ats) ≡ len
    → drop (c.i + 1) p ≡ encode_attribs ats ++ r
    → (e : Cursor) × (parse_attribs fuel p len c ≡ ok e) × (e.update ≡ set_all ats c.update)
unfolding encode_attribs set_all
parse_attribs-encode_attribs zero len ats c p r h b f w e d = absurd (omega arith)
parse_attribs-encode_attribs (suc fuel) len [] c p r h b f w e d =
    (c, parse_attribs-end fuel len c p (omega arith), refl)
parse_attribs-encode_attribs (suc fuel) len ((flags, a) ∷ ats) c p r h b f w e d =
    let n = length (encode_attrib flags a) in
    let split = length-append (encode_attrib flags a) (encode_attribs ats) in
    let (got, next) =
      parse_attrib-encode_attrib flags a c p (encode_attribs ats ++ r) (f.0) w
        (d ∙ append_assoc (encode_attrib flags a) (encode_attribs ats) r) in
    let (last, rest, fields) =
      parse_attribs-encode_attribs fuel len ats (advance n (set a c.update) c) p r (omega arith) b
        (f.1) (set-next_hop a c.update (f.0) w) (omega (arith, split, e)) next in
    (
      last,
      parse_attribs-turn fuel len c _ p (omega (arith, split, e, length-encode_attrib flags a)) got
          ∙ rest,
      fields,
    )

-- A message that announces routes: no withdrawn routes, the length of the attributes, the
-- attributes, and the routes.
unfoldable pub announce_packet : List Flagged → List Route → QueueData
announce_packet ats rs =
    let n = length (encode_attribs ats) in
    let packet = 0 ∷ 0 ∷ n / 2 ^ 8 ∷ n % 2 ^ 8 ∷ encode_attribs ats ++ encode_routes rs in
    record { length = length packet; packet = packet }

-- The fields that the routes of the message share.
unfoldable pub announced : List Flagged → Update
announced ats = record (set_all ats empty_update) { addr_family = 2 }

process_announce-parts :
    (now bgp_id len : ℕ) (packet : List ℕ) (b : Bgp) (c : Cursor) (u : Update)
    → be16 packet 2 ≡ ok len
    → parse_attribs
        (length packet)
        packet
        len
        (record { i = 3; read_len = 0; update = empty_update })
      ≡ ok c
    → c.update ≡ u
    → process_announce now bgp_id packet b
      ≡ parse_nlri
          (length packet + 1)
          NlriParse.update
          now
          bgp_id
          packet
          (len + 4)
          (record u { addr_family = 2 })
          b
unfolding process_announce
process_announce-parts now bgp_id len packet b c u h e f =
    rw (h, e)
      (ap
        (λ u'.
          parse_nlri (length packet + 1) NlriParse.update now bgp_id packet (len + 4)
            (record u' { addr_family = 2 }) b)
        f)

be16-third : (a b c d : ℕ) (r : List ℕ) → be16 (a ∷ b ∷ c ∷ d ∷ r) 2 ≡ ok (c * 2 ^ 8 + d)
unfolding be16 byte_at get_elem?
be16-third a b c d r = refl

n_plus_4 : (n : ℕ) → n + 4 ≡ 4 + n
n_plus_4 n = omega arith

process_packet-announce :
    (now bgp_id : ℕ) (packet : List ℕ) (b : Bgp)
    → be16 packet 0 ≡ ok 0
    → process_packet now bgp_id packet b ≡ process_announce now bgp_id packet b
unfolding process_packet
process_packet-announce now bgp_id packet b h = rw h refl

-- A message of attributes with a length of one byte each, whose values fit their bytes, less than
-- 65,536 bytes in all, and of routes with lengths from 1 to 32, without withdrawn routes, is decoded into exactly these routes: each is appended, in order, to the
-- queue of updates, with the fields that the attributes set: the attributes are all those that are
-- read into a field, with the first segment of each path. The flags are not looked at.
pub process_packet-announce_packet :
    (now bgp_id : ℕ) (ats : List Flagged) (rs : List Route) (b : Bgp)
    → length (encode_attribs ats) < 2 ^ 16
    → AllFit ats
    → All IsRoute rs
    → process_packet now bgp_id (padded (announce_packet ats rs)) b
      ≡ ok (
          append_queue NlriParse.update
            (map (queued NlriParse.update now bgp_id (announced ats)) rs)
            b)
unfolding padded announce_packet announced drop
process_packet-announce_packet now bgp_id ats rs b h f w =
    let n = length (encode_attribs ats) in
    let body : List ℕ = encode_attribs ats ++ encode_routes rs in
    let packet : List ℕ = 0 ∷ 0 ∷ n / 2 ^ 8 ∷ n % 2 ^ 8 ∷ body in
    let (c, got, fields) =
      parse_attribs-encode_attribs (length (packet ++ zeros)) n ats
        (record { i = 3; read_len = 0; update = empty_update }) (packet ++ zeros)
        (encode_routes rs ++ zeros)
        (omega (
          arith,
          length-append body zeros,
          length-append (encode_attribs ats) (encode_routes rs),
          length-encode_attribs ats,
        ))
        h f (omega arith) (omega arith)
        (append_assoc (encode_attribs ats) (encode_routes rs) zeros) in
    rw (take_all body) (
      process_packet-announce now bgp_id (packet ++ zeros) b
        (be16-front 0 0 (n / 2 ^ 8 ∷ n % 2 ^ 8 ∷ body ++ zeros))
      ∙ process_announce-parts now bgp_id n (packet ++ zeros) b c (set_all ats empty_update)
          (be16-third 0 0 (n / 2 ^ 8) (n % 2 ^ 8) (body ++ zeros) ∙ ap ok (omega arith)) got fields
      ∙ parse_nlri-encode_routes (length (packet ++ zeros) + 1) (n + 4) now bgp_id NlriParse.update
          rs (packet ++ zeros) (replicate 4 0)
          (record (set_all ats empty_update) { addr_family = 2 }) b
          (omega (
            arith,
            length-append body zeros,
            length-append (encode_attribs ats) (encode_routes rs),
            length-encode_routes rs,
          ))
          w
          (ap (λ k. drop k (packet ++ zeros)) (n_plus_4 n)
            ∙ drop-drop 4 n (packet ++ zeros)
            ∙ ap (drop n) (append_assoc (encode_attribs ats) (encode_routes rs) zeros)
            ∙ drop_length (encode_attribs ats) (encode_routes rs ++ zeros)))
