-- ===== src/Database/History.antt =====
-- src/bgp_database.cpp: the file and its index implement a bounded history of each key, as long as
-- inserts come before the queries.
use mathlib.Core.List.{reverse-cons}
use log2bgp.Base.{
  ℕ, suc, ◌+◌, ◌≤◌, ◌<◌, ◌^◌, ◌≡◌, refl, ap, sym, subst, ◌∙◌, true, some, List, [], ◌∷◌, ◌++◌,
  append-nil, append_assoc, map, reverse, length, length-append, take_all, drop, drop-append,
  drop_all, drop_length, ltb, ◌==◌, Bool-cases, lt→ltb, ◌-◌, inl, inr, ◌%◌, if◌then◌else◌, arith,
}
use log2bgp.Msg.{Update, assign}
use log2bgp.OrderedMap.{insert}
use log2bgp.OrderedMap.Laws.{find-insert, find_same_rank}
use log2bgp.Database.Record.{write_record}
use log2bgp.Database.Record.RoundTrip.{IsStorable, stored, read_attribs-write_record}
use log2bgp.Database.File.{FStream, tellp, write}
use log2bgp.Database.{
  Database, PrefixEntry, prefix_entry, pair_order, positions, push_limited, db_insert, read_record,
  read_records, db_get_entries,
}

-- What the database promises: for each key the last updates inserted, the oldest first.
abbrev pub History : Type 0
History = PrefixEntry → List Update

abbrev pub no_history : History
no_history key = []

-- An insert adds to the history of its key, and drops the oldest update past the limit.
abbrev pub remember : ℕ → Update → History → History
remember limit u h key =
    if pair_order.rank (prefix_entry u.nlri) == pair_order.rank key
    then push_limited limit u (h key)
    else h key

-- The record of `u` stands at `p`.
pub record RecordAt (contents : List ℕ) (p : ℕ) (u : Update) : Type 0 where
  pub inside : p ≤ length contents
  pub small : p < 2 ^ 31
  pub storable : IsStorable u
  pub rest : List ℕ
  pub bytes : drop p contents ≡ write_record u ++ rest

abbrev pub Records : List ℕ → List ℕ → List Update → Type 0
Records c [] [] = Unit {0}
Records c [] (u ∷ us) = ⊥
Records c (p ∷ ps) [] = ⊥
Records c (p ∷ ps) (u ∷ us) = RecordAt c p u × Records c ps us

-- The database holds the history.
pub record Holds (h : History) (d : Database) : Type 0 where
  pub opened : d.dbase.is_open ≡ true
  pub records : (key : PrefixEntry) → Records d.dbase.contents (positions key d) (h key)

-- The file is at its end, as it is when it is opened and after inserts; a query moves it elsewhere.
abbrev pub AtEnd : Database → Type 0
AtEnd d = d.dbase.position ≡ length d.dbase.contents

RecordAt-append : (c more : List ℕ) (p : ℕ) (u : Update) → RecordAt c p u → RecordAt (c ++ more) p u
RecordAt-append c more p u r = record {
  inside = omega (arith, r.inside, length-append c more);
  small = r.small;
  storable = r.storable;
  rest = r.rest ++ more;
  bytes =
      drop-append p c more r.inside ∙ ap (λ xs. xs ++ more) r.bytes ∙ append_assoc _ r.rest more;
}

Records-append :
    (c more ps : List ℕ) (us : List Update) → Records c ps us → Records (c ++ more) ps us
Records-append c more [] [] r = tt
Records-append c more [] (u ∷ us) r = absurd r
Records-append c more (p ∷ ps) [] r = absurd r
Records-append c more (p ∷ ps) (u ∷ us) (r, rs) =
    (RecordAt-append c more p u r, Records-append c more ps us rs)

Records-snoc :
    (c ps qs : List ℕ) (us vs : List Update)
    → Records c ps us
    → Records c qs vs
    → Records c (ps ++ qs) (us ++ vs)
Records-snoc c [] qs [] vs r s = s
Records-snoc c [] qs (u ∷ us) vs r s = absurd r
Records-snoc c (p ∷ ps) qs [] vs r s = absurd r
Records-snoc c (p ∷ ps) qs (u ∷ us) vs (r, rs) s = (r, Records-snoc c ps qs us vs rs s)

Records-length : (c ps : List ℕ) (us : List Update) → Records c ps us → length ps ≡ length us
Records-length c [] [] r = refl
Records-length c [] (u ∷ us) r = absurd r
Records-length c (p ∷ ps) [] r = absurd r
Records-length c (p ∷ ps) (u ∷ us) (r, rs) = ap suc (Records-length c ps us rs)

Records-drop_one :
    (c ps : List ℕ) (us : List Update) → Records c ps us → Records c (drop 1 ps) (drop 1 us)
unfolding drop
Records-drop_one c [] [] r = r
Records-drop_one c [] (u ∷ us) r = absurd r
Records-drop_one c (p ∷ ps) [] r = absurd r
Records-drop_one c (p ∷ ps) (u ∷ us) r = r.1

Records-push_limited :
    (c : List ℕ) (limit p : ℕ) (u : Update) (ps : List ℕ) (us : List Update)
    → Records c ps us
    → RecordAt c p u
    → Records c (push_limited limit p ps) (push_limited limit u us)
unfolding push_limited
Records-push_limited c limit p u ps us rs r =
    let grown = Records-snoc c ps (p ∷ []) us (u ∷ []) rs (r, tt) in
    rw (Records-length c (ps ++ (p ∷ [])) (us ++ (u ∷ [])) grown)
      (elim (Bool-cases (ltb limit (length (us ++ (u ∷ []))))) [
        | inl long ↦ rw long (Records-drop_one c _ _ grown)
        | inr short ↦ rw short grown
      ])

Records-reverse :
    (c ps : List ℕ) (us : List Update) → Records c ps us → Records c (reverse ps) (reverse us)
Records-reverse c [] [] r = tt
Records-reverse c [] (u ∷ us) r = absurd r
Records-reverse c (p ∷ ps) [] r = absurd r
Records-reverse c (p ∷ ps) (u ∷ us) (r, rs) =
    rw (reverse-cons p ps, reverse-cons u us)
      (Records-snoc c (reverse ps) (p ∷ []) (reverse us) (u ∷ []) (Records-reverse c ps us rs)
        (r, tt))

-- At the end of the file a write appends.
write_end :
    (s : FStream) (bytes : List ℕ)
    → s.position ≡ length s.contents
    → (write bytes s).contents ≡ s.contents ++ bytes
unfolding write
write_end s bytes e = rw e (
    rw (take_all s.contents) (
      rw (drop_all s.contents (length s.contents + length bytes) (omega arith))
        (rw (append-nil bytes))))

new_record :
    (s : FStream) (u : Update)
    → IsStorable u
    → length s.contents < 2 ^ 31
    → s.position ≡ length s.contents
    → RecordAt (s.contents ++ write_record u) (tellp s) u
unfolding tellp
new_record s u w small e = record {
  inside = omega (arith, length-append s.contents (write_record u));
  small = omega arith;
  storable = w;
  rest = [];
  bytes = here ∙ sym (append-nil (write_record u));
}
  where
    here : drop (s.position % 2 ^ 32) (s.contents ++ write_record u) ≡ write_record u
    here =
        subst (λ n. drop n (s.contents ++ write_record u) ≡ write_record u) (omega arith)
          (drop_length s.contents (write_record u))

positions_same_rank :
    (j k : PrefixEntry) (d : Database)
    → pair_order.rank j ≡ pair_order.rank k
    → positions j d ≡ positions k d
unfolding positions
positions_same_rank j k d e = rw (find_same_rank pair_order j k d.index_map e, positions)

positions-db_insert :
    (u : Update) (d : Database) (key : PrefixEntry)
    → d.dbase.is_open ≡ true
    → positions key (db_insert u d) ≡ (
        if pair_order.rank (prefix_entry u.nlri) == pair_order.rank key
        then push_limited d.max_records (tellp d.dbase) (positions key d)
        else positions key d)
unfolding db_insert
positions-db_insert u d key e = ground (
  arith,
  positions_same_rank (prefix_entry u.nlri) key d,
  find-insert pair_order (prefix_entry u.nlri) key
      (push_limited d.max_records (tellp d.dbase) (positions (prefix_entry u.nlri) d)) d.index_map,
)

dbase-db_insert :
    (u : Update) (d : Database)
    → d.dbase.is_open ≡ true
    → (db_insert u d).dbase ≡ write (write_record u) d.dbase
unfolding db_insert
dbase-db_insert u d e = rw e

-- An insert into a database that holds a history leaves it holding the history with the update
-- added, if the file is at its end and below 2 GB, and the fields of the update fit their bytes; the
-- file is at its end again. A query before the insert leaves the file elsewhere: of an insert after
-- it this says nothing.
pub db_insert-Holds :
    (h : History) (d : Database) (u : Update)
    → Holds h d
    → AtEnd d
    → IsStorable u
    → length d.dbase.contents < 2 ^ 31
    → Holds (remember d.max_records u h) (db_insert u d) × AtEnd (db_insert u d)
unfolding positions
db_insert-Holds h d u w at_end s small = (
  record {
    opened = rw (dbase-db_insert u d w.opened) (unfold write in w.opened);
    records = λ key.
        rw (dbase-db_insert u d w.opened, write_end d.dbase (write_record u) at_end)
          (rw (positions-db_insert u d key w.opened) (kept key));
  },
  rw (dbase-db_insert u d w.opened) (end_of_write at_end),
)
  where
    end_of_write :
        d.dbase.position ≡ length d.dbase.contents
        → (write (write_record u) d.dbase).position
          ≡ length (write (write_record u) d.dbase).contents
    end_of_write e =
        rw (write_end d.dbase (write_record u) e, length-append d.dbase.contents (write_record u))
          (unfold write in ap (λ (n : ℕ). n + length (write_record u)) e)

    kept :
        (key : PrefixEntry)
        → Records
            (d.dbase.contents ++ write_record u)
            (if pair_order.rank (prefix_entry u.nlri) == pair_order.rank key
              then push_limited d.max_records (tellp d.dbase) (positions key d)
              else positions key d)
            (remember d.max_records u h key)
    kept key =
        let old = Records-append d.dbase.contents (write_record u) _ _ (w.records key) in
        elim (Bool-cases (pair_order.rank (prefix_entry u.nlri) == pair_order.rank key)) [
          | inl same ↦
              rw same (Records-push_limited _ _ _ u _ _ old (new_record d.dbase u s small at_end))
          | inr other ↦ rw other old
        ]

read_record-RecordAt :
    (s : FStream) (p : ℕ) (u : Update)
    → RecordAt s.contents p u
    → (s' : FStream) × (read_record p s ≡ some (assign (stored u), s')) × (s'.contents ≡ s.contents)
unfolding read_record
read_record-RecordAt s p u r = (
  record s { position = length s.contents - length r.rest },
  rw (lt→ltb p (2 ^ 31) r.small, read_record)
      (rw r.bytes (
        rw (read_attribs-write_record u (length s.contents + 14) r.rest r.storable (omega arith)))),
  refl,
)

read_records-Records :
    (s : FStream) (ps : List ℕ) (us : List Update)
    → Records s.contents ps us
    → (s' : FStream) × (read_records ps s ≡ some (map (λ u. assign (stored u)) us, s'))
      × (s'.contents ≡ s.contents)
unfolding read_records
read_records-Records s [] [] r = (s, refl, refl)
read_records-Records s [] (u ∷ us) r = absurd r
read_records-Records s (p ∷ ps) [] r = absurd r
read_records-Records s (p ∷ ps) (u ∷ us) (r, rs) =
    let (s1, e1, c1) = read_record-RecordAt s p u r in
    let (s2, e2, c2) = read_records-Records s1 ps us (subst (λ c. Records c ps us) (sym c1) rs) in
    (s2, rw (e1, read_records) (rw e2), c2 ∙ c1)

-- Where the database holds a history, a query returns the updates of its key, the newest first,
-- with the three fields that are not stored at 0, and leaves the bytes of the file as they are.
pub db_get_entries-Holds :
    (h : History) (d : Database) (entry : Update)
    → Holds h d
    → (d' : Database) × (db_get_entries entry d
        ≡ some (map (λ u. assign (stored u)) (reverse (h (prefix_entry entry.nlri))), d'))
      × (d'.dbase.contents ≡ d.dbase.contents)
unfolding db_get_entries
db_get_entries-Holds h d entry w =
    let key = prefix_entry entry.nlri in
    let (s, e, c) =
      read_records-Records d.dbase (reverse (positions key d)) (reverse (h key))
        (Records-reverse _ _ _ (w.records key)) in
    (
      record d { dbase = s; index_map = insert pair_order key (positions key d) d.index_map },
      rw (e, db_get_entries),
      c,
    )
