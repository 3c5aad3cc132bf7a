-- ===== src/Database/Record/Turns.antt =====
-- src/bgp_database.cpp: one round of the loop of db_get_entries for each attribute of a record.
use log2bgp.Base.{
  ℕ, zero, suc, ◌≤◌, ◌<◌, ◌^◌, ◌≡◌, refl, sym, subst, ◌∙◌, false, Option, none, some, List, [],
  ◌++◌, append_assoc, append-nil, length, take, take_all, All, ◌==◌, arith,
}
use log2bgp.Base.Bytes.{Reader, le_bytes, read_le, read_le-le_bytes}
use log2bgp.Msg.{Update, AsPathSegment, AggregatorSegment, CommunitySegment, Nlri}
use log2bgp.Database.Record.{
  read_attrib, read_attribs, origin_mark, as_path_mark, next_hop_mark, multi_exit_disc_mark,
  local_pref_mark, atomic_aggregate_mark, aggregator_mark, community_mark, as4_path_mark,
  as4_aggregator_mark, addr_family_mark, addr_family_id_mark, nlri_mark, end_of_record,
  write_aggregator, write_path, write_atomic, write_communities, write_community, write_nlri,
  write_field, continue_unless_end, read_round, read_communities,
}
use log2bgp.Database.Record.Reads.{
  Reads, Reads-le, Reads-pure, Reads-map, Reads-bind, read_aggregator-write, read_communities-write,
  read_path-write, read_nlri-write, PathFits, NlriFits,
}

-- The bytes turn `v` into `v'`: a read that succeeds from `v'` on what follows them succeeds from
-- `v` with one more round of the loop.
pub record Turns (bytes : List ℕ) (v v' : Update) : Type 0 where
  pub at :
      (f : ℕ) (r : List ℕ) (x : Update × List ℕ)
      → read_attribs f v' r ≡ some x
      → read_attribs (suc f) v (bytes ++ r) ≡ some x

continue_mono :
    (k l : Update → Reader Update) (code : ℕ) (o : Option (Update × List ℕ)) (x : Update × List ℕ)
    → ((u : Update) (r : List ℕ) → k u r ≡ some x → l u r ≡ some x)
    → continue_unless_end k code o ≡ some x
    → continue_unless_end l code o ≡ some x
unfolding continue_unless_end
continue_mono k l code none x h e = e
continue_mono k l code (some (u, r)) x h e = ground (arith, h u r)

round_mono :
    (k l : Update → Reader Update) (v : Update) (o : Option (ℕ × List ℕ)) (x : Update × List ℕ)
    → ((u : Update) (r : List ℕ) → k u r ≡ some x → l u r ≡ some x)
    → read_round k v o ≡ some x
    → read_round l v o ≡ some x
unfolding read_round
round_mono k l v none x h e = e
round_mono k l v (some (code, r)) x h e = continue_mono k l code (read_attrib code v r) x h e

pub more_fuel :
    (f : ℕ) (v : Update) (r : List ℕ) (x : Update × List ℕ)
    → read_attribs f v r ≡ some x
    → read_attribs (suc f) v r ≡ some x
unfolding read_attribs
more_fuel zero v r x h = absurd (ground arith)
more_fuel (suc f) v r x h =
    round_mono (read_attribs f) (read_attribs (suc f)) v (read_le 4 r) x (λ u s. more_fuel f u s x)
      h

-- One round of the loop over an attribute that is not the end marker.
round :
    (mark : ℕ) {payload : List ℕ} {v v' : Update}
    → mark < 2 ^ 32
    → (mark == end_of_record) ≡ false
    → Reads (read_attrib mark v) payload v'
    → Turns (le_bytes 4 mark ++ payload) v v'
round mark {payload} small live reads = record {
  at = λ f r x h. rw (append_assoc (le_bytes 4 mark) payload r) (
      unfold read_round continue_unless_end read_attribs in
      rw (read_le-le_bytes 4 mark (payload ++ r) small, read_round)
        (rw (reads.at r, continue_unless_end) (rw live h)));
}

-- An attribute that is not there writes nothing.
skip : {v v' : Update} → v ≡ v' → Turns [] v v'
skip {v} e = record {
  at = λ f r x h. more_fuel f v r x (subst (λ w. read_attribs f w r ≡ some x) (sym e) h);
}

pub addr_family-Turns :
    (n : ℕ) (v : Update)
    → n < 2 ^ 16
    → Turns (write_field addr_family_mark 2 n) v (record v { addr_family = n })
unfolding write_field read_attrib
addr_family-Turns n v h = round addr_family_mark (omega arith) refl (Reads-map _ (Reads-le 2 n h))

pub addr_family_id-Turns :
    (n : ℕ) (v : Update)
    → n < 256
    → Turns (write_field addr_family_id_mark 1 n) v (record v { addr_family_id = n })
unfolding write_field read_attrib
addr_family_id-Turns n v h =
    round addr_family_id_mark (omega arith) refl (Reads-map _ (Reads-le 1 n h))

pub next_hop-Turns :
    (n : ℕ) (v : Update)
    → n < 2 ^ 32
    → Turns (write_field next_hop_mark 4 n) v (record v { ipv4_next_hop = n })
unfolding write_field read_attrib
next_hop-Turns n v h = round next_hop_mark (omega arith) refl (Reads-map _ (Reads-le 4 n h))

pub local_pref-Turns :
    (n : ℕ) (v : Update)
    → n < 2 ^ 32
    → Turns (write_field local_pref_mark 4 n) v (record v { local_pref = n })
unfolding write_field read_attrib
local_pref-Turns n v h = round local_pref_mark (omega arith) refl (Reads-map _ (Reads-le 4 n h))

pub med-Turns :
    (n : ℕ) (v : Update)
    → n < 2 ^ 32
    → Turns (write_field multi_exit_disc_mark 4 n) v (record v { med = n })
unfolding write_field read_attrib
med-Turns n v h = round multi_exit_disc_mark (omega arith) refl (Reads-map _ (Reads-le 4 n h))

pub origin-Turns :
    (n : ℕ) (v : Update) → n < 256 → Turns (write_field origin_mark 1 n) v (record v { origin = n })
unfolding write_field read_attrib
origin-Turns n v h = round origin_mark (omega arith) refl (Reads-map _ (Reads-le 1 n h))

-- The fields of an optional attribute fit their widths.
abbrev pub Fits : {A : Type 0} → (A → Type 0) → Option A → Type 0
Fits P none = Unit {0}
Fits P (some a) = P a

abbrev pub AggregatorFits : AggregatorSegment → Type 0
AggregatorFits a = (a.asn < 2 ^ 32) × (a.origin < 2 ^ 32)

abbrev pub CommunityFits : CommunitySegment → Type 0
CommunityFits c = (c.asn < 2 ^ 32) × (c.value < 2 ^ 32)

pub aggregator-Turns :
    (o : Option AggregatorSegment) (v : Update)
    → v.aggregator ≡ none
    → Fits AggregatorFits o
    → Turns (write_aggregator aggregator_mark o) v (record v { aggregator = o })
unfolding write_aggregator read_attrib
aggregator-Turns none v e h = skip (λ i. record v { aggregator = e i })
aggregator-Turns (some a) v e h =
    round aggregator_mark (omega arith) refl (Reads-map _ (read_aggregator-write a h.0 h.1))

pub as4_aggregator-Turns :
    (o : Option AggregatorSegment) (v : Update)
    → v.as4_aggregator ≡ none
    → Fits AggregatorFits o
    → Turns (write_aggregator as4_aggregator_mark o) v (record v { as4_aggregator = o })
unfolding write_aggregator read_attrib
as4_aggregator-Turns none v e h = skip (λ i. record v { as4_aggregator = e i })
as4_aggregator-Turns (some a) v e h =
    round as4_aggregator_mark (omega arith) refl (Reads-map _ (read_aggregator-write a h.0 h.1))

pub as4_path-Turns :
    (o : Option AsPathSegment) (v : Update)
    → v.as4_path ≡ none
    → Fits PathFits o
    → Turns (write_path as4_path_mark o) v (record v { as4_path = o })
unfolding write_path read_attrib
as4_path-Turns none v e h = skip (λ i. record v { as4_path = e i })
as4_path-Turns (some a) v e h =
    round as4_path_mark (omega arith) refl (Reads-map _ (read_path-write a h))

pub as_path-Turns :
    (o : Option AsPathSegment) (v : Update)
    → v.as_path ≡ none
    → Fits PathFits o
    → Turns (write_path as_path_mark o) v (record v { as_path = o })
unfolding write_path read_attrib
as_path-Turns none v e h = skip (λ i. record v { as_path = e i })
as_path-Turns (some a) v e h =
    round as_path_mark (omega arith) refl (Reads-map _ (read_path-write a h))

pub atomic-Turns :
    (n : ℕ) (v : Update)
    → v.atomic_aggregate ≡ 0
    → n ≤ 1
    → Turns (write_atomic n) v (record v { atomic_aggregate = n })
unfolding write_atomic read_attrib
atomic-Turns zero v e h = skip (λ i. record v { atomic_aggregate = e i })
atomic-Turns (suc zero) v e h =
    subst (λ bs. Turns bs v (record v { atomic_aggregate = 1 }))
      (append-nil (le_bytes 4 atomic_aggregate_mark))
      (round atomic_aggregate_mark (omega arith) refl (Reads-pure _))
atomic-Turns (suc (suc n)) v e h = absurd (omega arith)

pub nlri-Turns :
    (n : Nlri) (v : Update) → NlriFits n → Turns (write_nlri n) v (record v { nlri = n })
unfolding write_nlri read_attrib
nlri-Turns n v h = round nlri_mark (omega arith) refl (Reads-map _ (read_nlri-write v.nlri n h))

-- The array has as many communities as `n` says; with no array `n` is 0.
abbrev pub CommunitiesFit : ℕ → Option (List CommunitySegment) → Type 0
CommunitiesFit n none = n ≡ 0
CommunitiesFit n (some cs) = (length cs ≡ n) × (n < 256) × All CommunityFits cs

pub community-Turns :
    (n : ℕ) (o : Option (List CommunitySegment)) (v : Update)
    → v.community ≡ none
    → v.com_seg_length ≡ 0
    → CommunitiesFit n o
    → Turns (write_community n o) v (record v { com_seg_length = n; community = o })
unfolding write_community read_attrib
community-Turns n none v e c h =
    skip (λ i. record v { com_seg_length = (c ∙ sym h) i; community = e i })
community-Turns n (some cs) v e c (whole, short, fits) = round community_mark (omega arith) refl (
    Reads-bind _ n (Reads-le 1 n short)
      (Reads-map (λ ds. record v { com_seg_length = n; community = some ds }) values))
  where
    values : Reads (read_communities n) (write_communities (take n cs)) cs
    values =
        subst (λ m. Reads (read_communities m) (write_communities (take m cs)) cs) whole
          (subst (λ ds. Reads (read_communities (length cs)) (write_communities ds) cs)
            (sym (take_all cs)) (read_communities-write cs fits))
