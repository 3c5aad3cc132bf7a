-- ===== src/Tests/Files.antt =====
-- Runs of the history of src/bgp_database.cpp.
use log2bgp.Base.{◌≡◌, refl, some, [], ◌∷◌, ◌++◌, map, reverse, arith}
use log2bgp.Msg.{empty_update, assign}
use log2bgp.OrderedMap.{find}
use log2bgp.Database.{Database, positions, db_open, db_insert, db_get_entries, prefix_entry}
use log2bgp.Database.File.{open_stream}
use log2bgp.Database.Record.{write_record, read_attribs}
use log2bgp.Database.Record.RoundTrip.{IsStorable, stored, read_attribs-write_record}
use log2bgp.Database.History.{
  Holds, AtEnd, no_history, remember, db_insert-Holds, db_get_entries-Holds,
}
use log2bgp.Tests.Data.{one_update}

one_update-IsStorable : IsStorable one_update
one_update-IsStorable = record {
  origin = omega arith;
  as_path = tt;
  as4_path = tt;
  ipv4_next_hop = omega arith;
  med = omega arith;
  local_pref = omega arith;
  atomic_aggregate = omega arith;
  aggregator = tt;
  as4_aggregator = tt;
  community = refl;
  addr_family = omega arith;
  addr_family_id = omega arith;
  nlri = record {
    bgp_id = omega arith;
    prefix = omega arith;
    prefix_highest = omega arith;
    subnet_mask = omega arith;
    prefix_length = omega arith;
    withdrawn = omega arith;
    received = omega arith;
    age = omega arith;
    last_withdraw_time = omega arith;
  };
}

db_open-Holds : Holds no_history db_open
unfolding db_open open_stream positions find
db_open-Holds = record { opened = refl; records = λ key. tt }

read_attribs-write_record_example :
    read_attribs 14 empty_update (write_record one_update ++ (1 ∷ []))
    ≡ some (stored one_update, 1 ∷ [])
read_attribs-write_record_example =
    read_attribs-write_record one_update 14 (1 ∷ []) one_update-IsStorable (omega arith)

db_insert-Holds_example :
    Holds (remember 1000 one_update no_history) (db_insert one_update db_open)
    × AtEnd (db_insert one_update db_open)
unfolding db_open open_stream
db_insert-Holds_example =
    db_insert-Holds no_history db_open one_update db_open-Holds refl one_update-IsStorable
      (omega arith)

inserted-Holds : Holds (remember 1000 one_update no_history) (db_insert one_update db_open)
unfolding db_open open_stream
inserted-Holds =
    (db_insert-Holds no_history db_open one_update db_open-Holds refl one_update-IsStorable
      (omega arith)).0

db_get_entries-Holds_example :
    (d' : Database) × (db_get_entries one_update (db_insert one_update db_open)
      ≡ some (
        map
            (λ u. assign (stored u))
            (reverse (remember 1000 one_update no_history (prefix_entry one_update.nlri))),
        d',
      ))
    × (d'.dbase.contents ≡ (db_insert one_update db_open).dbase.contents)
db_get_entries-Holds_example =
    db_get_entries-Holds (remember 1000 one_update no_history) (db_insert one_update db_open)
      one_update inserted-Holds
