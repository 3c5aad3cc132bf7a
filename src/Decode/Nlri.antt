-- ===== src/Decode/Nlri.antt =====
-- src/bgp_update.cpp: parse_nlri, the prefixes of an UPDATE message.
pub mod Turn
pub mod Bounds
pub mod RoundTrip
pub mod Range
use log2bgp.Base.{
  ℕ, zero, suc, ◌+◌, ◌-◌, ◌*◌, ◌/◌, ◌%◌, ◌^◌, Bool, true, false, List, [], ◌∷◌, ◌++◌, ◌==◌,
  if◌then◌else◌, bit_or, Result, ok, fault, no_fuel, ◌>>=◌,
}
use log2bgp.Base.Words.{ntohl, htonl}
use log2bgp.Msg.{Nlri, Update, empty_nlri, assign}
use log2bgp.Bgp.{Bgp, NlriParse}
use log2bgp.Decode.Buffer.{byte_at, copy_u32}

-- 0xFFFFFFFF << (32 - length), for a length from 1 to 32.
unfoldable pub net_mask : ℕ → ℕ
net_mask length = 0xFFFFFFFF * 2 ^ (32 - length) % 2 ^ 32

-- get_ipv4_high_range(prefix, length); ~mask is 2 ^ 32 - 1 - mask.
unfoldable pub get_ipv4_high_range : ℕ → ℕ → ℕ
unfolding net_mask
get_ipv4_high_range prefix length = htonl (bit_or (ntohl prefix) (2 ^ 32 - 1 - net_mask length))

-- The number of bytes that hold a prefix of this length.
unfoldable pub byte_length : ℕ → ℕ
byte_length prefix_length =
    if prefix_length % 8 == 0 then prefix_length / 8 else prefix_length / 8 + 1

-- The nlri that the loop fills in. `now` is time(NULL).
unfoldable pub new_nlri : NlriParse → ℕ → ℕ → ℕ → ℕ → Nlri
new_nlri NlriParse.update now bgp_id prefix_length prefix = record empty_nlri {
  bgp_id = bgp_id;
  prefix = prefix;
  prefix_highest = get_ipv4_high_range prefix prefix_length;
  prefix_length = prefix_length;
  age = now;
}
new_nlri NlriParse.withdraw now bgp_id prefix_length prefix = record empty_nlri {
  bgp_id = bgp_id;
  prefix = prefix;
  prefix_highest = get_ipv4_high_range prefix prefix_length;
  prefix_length = prefix_length;
  last_withdraw_time = now;
}

-- push_adj_rib_in_q and push_adj_rib_in_wdraw_q: a copy goes to the end of the queue.
unfoldable pub push : NlriParse → Update → Bgp → Bgp
push NlriParse.update u b = record b { adj_rib_in_q = b.adj_rib_in_q ++ (assign u ∷ []) }
push NlriParse.withdraw u b = record b {
  adj_rib_in_wdraw_q = b.adj_rib_in_wdraw_q ++ (assign u ∷ []);
}

-- parse_nlri(peer, update, offset, packet, flag). A prefix longer than 32 bits faults at its copy,
-- before the shift by a negative number.
unfoldable pub parse_nlri : ℕ → NlriParse → ℕ → ℕ → List ℕ → ℕ → Update → Bgp → Result Bgp
unfolding new_nlri push byte_length
parse_nlri zero flag now bgp_id packet offset u b = fault no_fuel
parse_nlri (suc fuel) flag now bgp_id packet offset u b = byte_at packet offset >>= λ prefix_length.
    elim (prefix_length == 0) [
      | true ↦ ok b
      | false ↦ copy_u32 0 packet (offset + 1) (byte_length prefix_length) >>= λ prefix.
          let u' = record u { nlri = new_nlri flag now bgp_id prefix_length prefix } in
          parse_nlri fuel flag now bgp_id packet (offset + 1 + byte_length prefix_length) u'
            (push flag u' b)
    ]
