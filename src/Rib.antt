-- ===== src/Rib.antt =====
-- src/bgp.cpp and include/bgp_adj_rib.h: the adj-rib-in, the updates and withdrawals that wait for
-- it, and the counters of the peers.
pub mod WellFormed
pub mod Counters
pub mod Queues
pub mod Flush
pub mod Latest
use log2bgp.Base.{
  ℕ, zero, suc, ◌+◌, ◌*◌, ◌^◌, ◌≡◌, Bool, true, false, ◌&&◌, ◌||◌, Option, none, some, List, [],
  ◌∷◌, ◌++◌, ltb, ◌==◌, if◌then◌else◌, arith, Result, ok, fault, null_pointer, ◌>>=◌,
}
use log2bgp.Base.Words.{ntohl, byte0, byte1, byte2, byte3, ntohl-lt, inc32, dec32}
use log2bgp.Msg.{Update, assign}
use log2bgp.Peer.{Peer}
use log2bgp.OrderedMap.{KeyOrder, OrderedMap, find, insert, erase}
use log2bgp.Database.{PrefixEntry, prefix_entry, db_insert}
use log2bgp.Bgp.{Bgp, NlriParse}
use log2bgp.Threads.{get_peer_by_bgp_id, through_peer}

-- memcmp(&a, &b, sizeof (uint32_t)) < 0: the bytes are compared in memory order.
unfoldable pub memcmp_lt : ℕ → ℕ → Bool
unfolding byte0 byte1 byte2 byte3
memcmp_lt a b =
    ltb (byte0 a) (byte0 b)
    || (byte0 a == byte0 b
        && (ltb (byte1 a) (byte1 b)
            || (byte1 a == byte1 b
                && (ltb (byte2 a) (byte2 b) || (byte2 a == byte2 b && ltb (byte3 a) (byte3 b))))))

-- !memcmp(&a, &b, sizeof (uint32_t)).
unfoldable pub memcmp_eq : ℕ → ℕ → Bool
unfolding byte0 byte1 byte2 byte3
memcmp_eq a b =
    byte0 a == byte0 b && (byte1 a == byte1 b && (byte2 a == byte2 b && byte3 a == byte3 b))

pub memcmp_lt-ntohl : (a b : ℕ) → memcmp_lt a b ≡ ltb (ntohl a) (ntohl b)
unfolding memcmp_lt ntohl
memcmp_lt-ntohl a b = ground arith

pub memcmp_eq-ntohl : (a b : ℕ) → memcmp_eq a b ≡ (ntohl a == ntohl b)
unfolding memcmp_eq ntohl
memcmp_eq-ntohl a b = ground arith

-- rib_sort.
unfoldable pub rib_sort : PrefixEntry → PrefixEntry → Bool
rib_sort (a, b) (c, d) = memcmp_lt a c || (memcmp_eq a c && memcmp_lt b d)

-- The place of a key in the order: the prefix as a number, then the BGP id.
unfoldable pub rib_rank : PrefixEntry → ℕ
rib_rank (a, b) = ntohl a * 2 ^ 32 + ntohl b

pub rib_sort_rank : (a b : PrefixEntry) → rib_sort a b ≡ ltb (rib_rank a) (rib_rank b)
unfolding rib_sort rib_rank
rib_sort_rank (a, b) (c, d) =
    ground
      (arith, memcmp_lt-ntohl a c, memcmp_eq-ntohl a c, memcmp_lt-ntohl b d, ntohl-lt b, ntohl-lt d)

unfoldable pub rib_order : KeyOrder PrefixEntry
rib_order = record { before = rib_sort; rank = rib_rank; before_rank = rib_sort_rank }

abbrev pub Rib : Type 0
Rib = OrderedMap PrefixEntry Update

-- dumper.translate_and_dump_update, if logging is on.
unfoldable pub dump : NlriParse → Update → Bgp → Bgp
dump flag u b = if b.dumper_on_off then record b { dumped = b.dumped ++ ((flag, u) ∷ []) } else b

-- What an update does to the counters of its peer, over an old route and over none.
abbrev pub count_implicit : Peer → Peer
count_implicit p = record p {
  implicit_withdraw = record p.implicit_withdraw { rx = inc32 p.implicit_withdraw.rx };
  prefixes = record p.prefixes { rx = inc32 p.prefixes.rx };
}

abbrev pub count_new : Peer → Peer
count_new p = record p {
  prefixes = record p.prefixes {
    current = record p.prefixes.current { rx = inc32 p.prefixes.current.rx };
    rx = inc32 p.prefixes.rx;
  };
}

abbrev pub count_withdraw : Peer → Peer
count_withdraw p = record p {
  explicit_withdraw = record p.explicit_withdraw { rx = inc32 p.explicit_withdraw.rx };
  prefixes = record p.prefixes {
    current = record p.prefixes.current { rx = dec32 p.prefixes.current.rx };
  };
}

-- peer_entry, once the peer is found: `old` is what the RIB has under the key.
unfoldable pub enter : Update → Option Update → Bgp → Bgp
enter u none b = record b {
  thread_q = through_peer u.nlri.bgp_id count_new b.thread_q;
  adj_rib_in = insert rib_order (prefix_entry u.nlri) (assign u) b.adj_rib_in;
}
enter u (some old) b = record b {
  thread_q = through_peer u.nlri.bgp_id count_implicit b.thread_q;
  database = db_insert old b.database;
  adj_rib_in = insert rib_order (prefix_entry u.nlri) (assign u) b.adj_rib_in;
}

unfoldable pub enter_if_peer : Update → Option Peer → Bgp → Bgp
unfolding enter
enter_if_peer u none b = b
enter_if_peer u (some p) b = enter u (find rib_order (prefix_entry u.nlri) b.adj_rib_in) b

-- peer_entry(update).
unfoldable pub peer_entry : Update → Bgp → Bgp
unfolding dump enter_if_peer
peer_entry u b =
    let b' = dump NlriParse.update u b in
    enter_if_peer u (get_peer_by_bgp_id u.nlri.bgp_id b'.thread_q) b'

-- withdraw, once a route is found. The pointer to the peer is not tested.
unfoldable pub remove_route : Update → Option Peer → Bgp → Result Bgp
remove_route u none b = fault null_pointer
remove_route u (some p) b = ok (record b {
  thread_q = through_peer u.nlri.bgp_id count_withdraw b.thread_q;
  adj_rib_in = erase rib_order (prefix_entry u.nlri) b.adj_rib_in;
})

unfoldable pub withdraw_found : Update → Option Update → Bgp → Result Bgp
unfolding remove_route dump
withdraw_found u none b = ok b
withdraw_found u (some old) b =
    remove_route u (get_peer_by_bgp_id u.nlri.bgp_id b.thread_q) (dump NlriParse.withdraw old b)

-- withdraw(nlri_withdraw).
unfoldable pub withdraw : Update → Bgp → Result Bgp
unfolding withdraw_found
withdraw u b = withdraw_found u (find rib_order (prefix_entry u.nlri) b.adj_rib_in) b

-- proc_adj_rib_in_queue.
unfoldable pub process_updates : List Update → Bgp → Bgp
process_updates [] b = record b { adj_rib_in_q = [] }
process_updates (u ∷ us) b =
    let b' = peer_entry u b in
    process_updates us (record b' { adj_rib_in_q = us; table_version = b'.table_version + 1 })

unfoldable pub proc_adj_rib_in_queue : Bgp → Bgp
unfolding process_updates
proc_adj_rib_in_queue b = process_updates b.adj_rib_in_q b

-- proc_adj_rib_wdraw_queue.
unfoldable pub process_withdrawals : List Update → Bgp → Result Bgp
process_withdrawals [] b = ok (record b { adj_rib_in_wdraw_q = [] })
process_withdrawals (u ∷ us) b = withdraw u b >>= λ b'.
    process_withdrawals us
      (record b' { adj_rib_in_wdraw_q = us; table_version = b'.table_version + 1 })

unfoldable pub proc_adj_rib_wdraw_queue : Bgp → Result Bgp
unfolding process_withdrawals
proc_adj_rib_wdraw_queue b = process_withdrawals b.adj_rib_in_wdraw_q b

-- flush_peer(bgp_id): the first route of the peer is erased; `none` is the result 0.
unfoldable pub flush_peer : ℕ → Rib → Option Rib
flush_peer bgp_id [] = none
flush_peer bgp_id ((k, u) ∷ m) = elim (u.nlri.bgp_id == bgp_id) [
  | true ↦ some m
  | false ↦ elim (flush_peer bgp_id m) [ none ↦ none | some m' ↦ some ((k, u) ∷ m') ]
]

-- while (flush_peer(bgp_id)) --current, on fuel.
unfoldable pub flush_peer_loop : ℕ → ℕ → Rib → ℕ → Rib × ℕ
flush_peer_loop zero bgp_id m current = (m, current)
flush_peer_loop (suc fuel) bgp_id m current = elim (flush_peer bgp_id m) [
  | none ↦ (m, current)
  | some m' ↦ flush_peer_loop fuel bgp_id m' (dec32 current)
]
