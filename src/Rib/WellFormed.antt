-- ===== src/Rib/WellFormed.antt =====
-- src/bgp.cpp: the adj-rib-in stays sorted by rib_sort, with each route under its own key.
use log2bgp.Base.{ℕ, ◌<◌, ◌^◌, ◌≡◌, refl, ap, sym, ◌∙◌, arith}
use log2bgp.Base.Words.{ntohl-lt, ntohl-injective}
use log2bgp.Msg.{Update, assign}
use log2bgp.OrderedMap.{insert, erase}
use log2bgp.OrderedMap.Laws.{
  Sorted, Each, insert-SortedFrom, erase-SortedFrom, insert-Each, erase-Each,
}
use log2bgp.Database.{PrefixEntry, prefix_entry}
use log2bgp.Rib.{Rib, rib_order, rib_rank}

-- The addresses that make the key are uint32_t.
abbrev pub KeyFits : Update → Type 0
KeyFits u = (u.nlri.prefix < 2 ^ 32) × (u.nlri.bgp_id < 2 ^ 32)

abbrev pub OwnKey : PrefixEntry → Update → Type 0
OwnKey k u = (k ≡ prefix_entry u.nlri) × KeyFits u

pub record IsWellFormed (m : Rib) : Type 0 where
  pub sorted : Sorted rib_order m
  pub keys : Each OwnKey m

rib_rank-injective :
    (a b c d : ℕ)
    → a < 2 ^ 32
    → b < 2 ^ 32
    → c < 2 ^ 32
    → d < 2 ^ 32
    → rib_rank (a, b) ≡ rib_rank (c, d)
    → (a ≡ c) × (b ≡ d)
unfolding rib_rank
rib_rank-injective a b c d ha hb hc hd e = (
  ntohl-injective a c ha hc (omega (arith, ntohl-lt b, ntohl-lt d)),
  ntohl-injective b d hb hd (omega (arith, ntohl-lt b, ntohl-lt d)),
)

-- Routes under the same place of the order have the same key.
pub same_key :
    (u w : Update)
    → KeyFits u
    → KeyFits w
    → rib_rank (prefix_entry w.nlri) ≡ rib_rank (prefix_entry u.nlri)
    → prefix_entry w.nlri ≡ prefix_entry u.nlri
same_key u w hu hw e =
    let (p, q) = rib_rank-injective _ _ _ _ hw.0 hw.1 hu.0 hu.1 e in λ i. (p i, q i)

pub insert-IsWellFormed :
    (u : Update) (m : Rib)
    → KeyFits u
    → IsWellFormed m
    → IsWellFormed (insert rib_order (prefix_entry u.nlri) (assign u) m)
unfolding assign rib_order
insert-IsWellFormed u m h w = record {
  sorted = insert-SortedFrom rib_order (prefix_entry u.nlri) (assign u) 0 m w.sorted (omega arith);
  keys =
      insert-Each rib_order OwnKey (prefix_entry u.nlri) (assign u) m (refl, h)
        (λ j v own e. (own.0 ∙ same_key u v h own.1 (ap rib_rank (sym own.0) ∙ e), h)) w.keys;
}

pub erase-IsWellFormed :
    (k : PrefixEntry) (m : Rib) → IsWellFormed m → IsWellFormed (erase rib_order k m)
erase-IsWellFormed k m w = record {
  sorted = erase-SortedFrom rib_order k 0 m w.sorted;
  keys = erase-Each rib_order OwnKey k m w.keys;
}
