-- ===== src/Database.antt =====
-- include/bgp_database.h and src/bgp_database.cpp: the history of overwritten routes, one binary
-- file and an index of the positions of its records, kept in memory.
pub mod Record
pub mod File
pub mod History
use log2bgp.Base.{
  ℕ, ◌+◌, ◌-◌, ◌*◌, ◌^◌, ◌≡◌, Bool, true, false, not, ◌&&◌, ◌||◌, Option, none, some, List, [], ◌∷◌,
  ◌++◌, length, drop, reverse, ltb, if◌then◌else◌, arith,
}
use log2bgp.Base.Words.{u32}
use log2bgp.Msg.{Update, Nlri, empty_update, assign}
use log2bgp.OrderedMap.{KeyOrder, OrderedMap, find, insert}
use Record.{write_record, read_attribs}
use File.{FStream, tellp, seekg, write, open_stream}

-- prefix_entry.
abbrev pub PrefixEntry : Type 0
PrefixEntry = ℕ × ℕ

abbrev pub prefix_entry : Nlri → PrefixEntry
prefix_entry n = (n.prefix, n.bgp_id)

-- operator< of std::pair<uint32_t, uint32_t>.
unfoldable pub pair_before : PrefixEntry → PrefixEntry → Bool
pair_before (a, b) (c, d) =
    ltb (u32 a) (u32 c) || (not (ltb (u32 c) (u32 a)) && ltb (u32 b) (u32 d))

unfoldable pub pair_rank : PrefixEntry → ℕ
pair_rank (a, b) = u32 a * 2 ^ 32 + u32 b

pub pair_before_rank : (a b : PrefixEntry) → pair_before a b ≡ ltb (pair_rank a) (pair_rank b)
unfolding pair_before pair_rank
pair_before_rank (a, b) (c, d) = ground arith

-- std::less of the index map.
unfoldable pub pair_order : KeyOrder PrefixEntry
unfolding pair_rank
pair_order = record { before = pair_before; rank = pair_rank; before_rank = pair_before_rank }

pub record Database : Type 0 where
  pub dbase : FStream
  pub index_map : OrderedMap PrefixEntry (List ℕ)
  pub max_records : ℕ

-- bgp_database() and db_open(name) with a name.
unfoldable pub db_open : Database
unfolding open_stream
db_open = record { dbase = open_stream; index_map = []; max_records = 1000 }

-- index_map[key]: a key that is not there stands for no positions.
unfoldable pub positions : PrefixEntry → Database → List ℕ
positions key d = elim (find pair_order key d.index_map) [ none ↦ [] | some ps ↦ ps ]

-- emplace_back(p), and erase(begin()) where the vector is longer than the limit.
unfoldable pub push_limited {ℓ} : {A : Type ℓ} → ℕ → A → List A → List A
push_limited limit p ps =
    let grown = ps ++ (p ∷ []) in if ltb limit (length grown) then drop 1 grown else grown

-- db_insert(update).
unfoldable pub db_insert : Update → Database → Database
unfolding push_limited tellp write positions
db_insert u d =
    let key = prefix_entry u.nlri in
    if d.dbase.is_open
    then record d {
      index_map =
          insert pair_order key (push_limited d.max_records (tellp d.dbase) (positions key d))
            d.index_map;
      dbase = write (write_record u) d.dbase;
    }
    else d

-- One record, read from the position in the index, with fuel for more attributes than any file has. The file is left where the record ends.
unfoldable pub read_record : ℕ → FStream → Option (Update × FStream)
unfolding seekg
read_record p s = elim (seekg p s) [
  | none ↦ none
  | some s' ↦ elim (read_attribs (length s.contents + 14) empty_update (drop p s.contents)) [
    | none ↦ none
    | some (u, rest) ↦ some (assign u, record s' { position = length s.contents - length rest })
  ]
]

unfoldable pub read_records : List ℕ → FStream → Option (List Update × FStream)
unfolding read_record
read_records [] s = some ([], s)
read_records (p ∷ ps) s = elim (read_record p s) [
  | none ↦ none
  | some (u, s') ↦ elim (read_records ps s') [ none ↦ none | some (us, s'') ↦ some (u ∷ us, s'') ]
]

-- db_get_entries(bgp, entry): the newest record first. `none`: a record that cannot be read, at
-- which the source does not return. Looking the key up makes an entry for it.
unfoldable pub db_get_entries : Update → Database → Option (List Update × Database)
unfolding read_records positions
db_get_entries entry d =
    let key = prefix_entry entry.nlri in
    elim (read_records (reverse (positions key d)) d.dbase) [
      | none ↦ none
      | some (us, s) ↦ some (
        us,
        record d { dbase = s; index_map = insert pair_order key (positions key d) d.index_map },
      )
    ]
