-- ===== src/Database/Record/RoundTrip.antt =====
-- src/bgp_database.cpp: a record that db_insert writes is read back by the loop of db_get_entries.
use log2bgp.Base.{
  ℕ, zero, suc, ◌≤◌, ◌<◌, ◌^◌, ◌≡◌, refl, subst, dec_lt, some, List, ◌++◌, append_assoc, arith,
}
use log2bgp.Base.Bytes.{pure, le_bytes, read_le-le_bytes}
use log2bgp.Msg.{Update, empty_update}
use log2bgp.Database.Record.{
  write_record, read_attrib, read_attribs, read_round, continue_unless_end, end_of_record,
}
use log2bgp.Database.Record.Reads.{PathFits, NlriFits}
use log2bgp.Database.Record.Turns.{
  Turns, more_fuel, Fits, AggregatorFits, CommunitiesFit, addr_family-Turns, addr_family_id-Turns,
  aggregator-Turns, as4_aggregator-Turns, as4_path-Turns, as_path-Turns, atomic-Turns,
  community-Turns, next_hop-Turns, local_pref-Turns, med-Turns, nlri-Turns, origin-Turns,
}

-- Every field fits the bytes that are written for it.
pub record IsStorable (u : Update) : Type 0 where
  pub origin : u.origin < 256
  pub as_path : Fits PathFits u.as_path
  pub as4_path : Fits PathFits u.as4_path
  pub ipv4_next_hop : u.ipv4_next_hop < 2 ^ 32
  pub med : u.med < 2 ^ 32
  pub local_pref : u.local_pref < 2 ^ 32
  pub atomic_aggregate : u.atomic_aggregate ≤ 1
  pub aggregator : Fits AggregatorFits u.aggregator
  pub as4_aggregator : Fits AggregatorFits u.as4_aggregator
  pub community : CommunitiesFit u.com_seg_length u.community
  pub addr_family : u.addr_family < 2 ^ 16
  pub addr_family_id : u.addr_family_id < 256
  pub nlri : NlriFits u.nlri

-- What a record keeps of an update: three fields are never written.
abbrev pub stored : Update → Update
stored u = record u { flags = 0; mp_nlri_nh_len = 0; subnetwork_points_of_attachment = 0 }

enough_fuel :
    (n m : ℕ) (v : Update) (r : List ℕ) (x : Update × List ℕ)
    → n ≤ m
    → read_attribs n v r ≡ some x
    → read_attribs m v r ≡ some x
enough_fuel n zero v r x h e = subst (λ k. read_attribs k v r ≡ some x) (omega arith) e
enough_fuel n (suc m) v r x h e = elim (dec_lt m n) [
  | yes p ↦ subst (λ k. read_attribs k v r ≡ some x) (omega arith) e
  | no p ↦ more_fuel m v r x (enough_fuel n m v r x (omega arith) e)
]

-- The loop, started at `v`, takes these bytes for the rest of a record and returns `w`.
record Finishes (f : ℕ) (v : Update) (bytes : List ℕ) (w : Update) : Type 0 where
  at : (r : List ℕ) → read_attribs f v (bytes ++ r) ≡ some (w, r)

end_turn : (f : ℕ) (v : Update) → Finishes (suc f) v (le_bytes 4 end_of_record) v
unfolding read_attribs read_round continue_unless_end read_attrib pure
end_turn f v = record {
  at = λ r. rw (read_le-le_bytes 4 end_of_record r (omega arith), read_round) refl;
}

chain :
    {bytes rest : List ℕ} {v v' w : Update} {f : ℕ}
    → Turns bytes v v'
    → Finishes f v' rest w
    → Finishes (suc f) v (bytes ++ rest) w
chain {bytes} {rest} t h = record {
  at = λ r. rw (append_assoc bytes rest r) (t.at _ (rest ++ r) _ (h.at r));
}

-- With fuel for 14 turns the loop reads back the record of any update whose fields fit their bytes,
-- with the three fields that are not stored at 0, whatever follows in the file.
pub read_attribs-write_record :
    (u : Update) (fuel : ℕ) (rest : List ℕ)
    → IsStorable u
    → 14 ≤ fuel
    → read_attribs fuel empty_update (write_record u ++ rest) ≡ some (stored u, rest)
unfolding write_record
read_attribs-write_record u fuel rest w h =
    enough_fuel 14 fuel empty_update (write_record u ++ rest) (stored u, rest) h
      ((chain (addr_family-Turns u.addr_family _ w.addr_family) (
          chain (addr_family_id-Turns u.addr_family_id _ w.addr_family_id) (
            chain (aggregator-Turns u.aggregator _ refl w.aggregator) (
              chain (as4_aggregator-Turns u.as4_aggregator _ refl w.as4_aggregator) (
                chain (as4_path-Turns u.as4_path _ refl w.as4_path) (
                  chain (as_path-Turns u.as_path _ refl w.as_path) (
                    chain (atomic-Turns u.atomic_aggregate _ refl w.atomic_aggregate) (
                      chain (community-Turns u.com_seg_length u.community _ refl refl w.community) (
                        chain (next_hop-Turns u.ipv4_next_hop _ w.ipv4_next_hop) (
                          chain (local_pref-Turns u.local_pref _ w.local_pref) (
                            chain (med-Turns u.med _ w.med) (
                              chain (nlri-Turns u.nlri _ w.nlri) (
                                chain (origin-Turns u.origin _ w.origin)
                                  (end_turn 0 (stored u))))))))))))))).at
        rest)
