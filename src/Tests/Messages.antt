-- ===== src/Tests/Messages.antt =====
-- Runs of the decoder of src/bgp_update.cpp.
use log2bgp.Base.{◌≡◌, refl, map, ok, arith, [], ◌∷◌, get_elem?}
use log2bgp.Base.Bytes.{le_bytes}
use log2bgp.Peer.{QueueData}
use log2bgp.Decode.Buffer.{be16, byte_at}
use log2bgp.Decode.Attrib.Encode.{Fits, encode_attrib, value_bytes, be2s, be2}
use log2bgp.Bgp.{NlriParse}
use log2bgp.Decode.{padded, process_packet}
use log2bgp.Decode.Nlri.{byte_length}
use log2bgp.Decode.Nlri.RoundTrip.{queued, append_queue, encode_routes}
use log2bgp.Decode.Nlri.Bounds.{Bounded}
use log2bgp.Decode.Withdraw.{
  withdraw_packet, process_packet-withdraw_packet, process_packet-Bounded,
}
use log2bgp.Decode.Announce.{
  announce_packet, announced, encode_attribs, process_packet-announce_packet,
}
use log2bgp.Msg.{empty_update}
use log2bgp.Tests.Data.{daemon, two_routes, three_attributes}

process_packet-announce_packet_example :
    process_packet 100 7 (padded (announce_packet three_attributes two_routes)) daemon
    ≡ ok (
        append_queue NlriParse.update
          (map (queued NlriParse.update 100 7 (announced three_attributes)) two_routes)
          daemon)
unfolding byte_length Fits encode_attribs encode_attrib value_bytes be2s be2 le_bytes
process_packet-announce_packet_example =
    process_packet-announce_packet 100 7 three_attributes two_routes daemon (omega arith)
      (tt, (tt, (omega arith, tt)))
      ((omega arith, omega arith, omega arith), ((omega arith, omega arith, omega arith), tt))

process_packet-withdraw_packet_example :
    process_packet 100 7 (padded (withdraw_packet two_routes)) daemon
    ≡ ok (
        append_queue NlriParse.withdraw
          (map (queued NlriParse.withdraw 100 7 empty_update) two_routes)
          daemon)
unfolding byte_length encode_routes log2bgp.Base.Bytes.le_bytes
process_packet-withdraw_packet_example =
    process_packet-withdraw_packet 100 7 two_routes daemon (omega arith) (omega arith)
      ((omega arith, omega arith, omega arith), ((omega arith, omega arith, omega arith), tt))

-- A message cut off in the middle of a prefix.
abbrev cut_off : QueueData
cut_off = record { length = 4; packet = 0 ∷ 6 ∷ 24 ∷ 10 ∷ [] }

process_packet-Bounded_example : Bounded (process_packet 100 7 (padded cut_off) daemon)
unfolding padded be16 byte_at get_elem?
process_packet-Bounded_example = process_packet-Bounded 100 7 6 cut_off daemon refl (omega arith)
