-- ===== src/Database/Record/Reads.antt =====
-- src/bgp_database.cpp: each compound field of a record is read back from the bytes written for it.
use log2bgp.Base.{
  ℕ, ◌<◌, ◌^◌, ◌≡◌, refl, sym, subst, some, List, [], ◌∷◌, ◌++◌, append_assoc, length, take,
  take_all, All,
}
use log2bgp.Base.Bytes.{Reader, pure, ◌>>=◌, le_bytes, read_le, read_le-le_bytes}
use log2bgp.Msg.{AsPathSegment, AggregatorSegment, CommunitySegment, Nlri}
use log2bgp.Database.Record.{
  write_values, write_communities, read_aggregator, read_values, read_path, read_communities,
  read_nlri,
}

-- `m` reads `a` from `bytes` and leaves what follows.
pub record Reads {A : Type 0} (m : Reader A) (bytes : List ℕ) (a : A) : Type 0 where
  pub at : (r : List ℕ) → m (bytes ++ r) ≡ some (a, r)

pub Reads-le : (n v : ℕ) → v < 256 ^ n → Reads (read_le n) (le_bytes n v) v
Reads-le n v h = record { at = λ r. read_le-le_bytes n v r h }

pub Reads-pure : {A : Type 0} (a : A) → Reads (pure a) [] a
unfolding pure
Reads-pure a = record { at = λ r. refl }

pub Reads-map :
    {A B : Type 0} (g : A → B) {m : Reader A} {xs : List ℕ} {a : A}
    → Reads m xs a
    → Reads (m >>= λ x. pure (g x)) xs (g a)
unfolding pure ◌>>=◌
Reads-map g p = record { at = λ r. rw (p.at r, ◌>>=◌) }

pub Reads-bind :
    {A B : Type 0} {m : Reader A} (k : A → Reader B) {xs ys : List ℕ} (a : A) {b : B}
    → Reads m xs a
    → Reads (k a) ys b
    → Reads (m >>= k) (xs ++ ys) b
unfolding ◌>>=◌
Reads-bind k {xs = xs} {ys = ys} a p q = record {
  at = λ r. rw (append_assoc xs ys r) (rw (p.at (ys ++ r), ◌>>=◌) (q.at r));
}

pub read_aggregator-write :
    (a : AggregatorSegment)
    → a.asn < 2 ^ 32
    → a.origin < 2 ^ 32
    → Reads read_aggregator (le_bytes 4 a.asn ++ le_bytes 4 a.origin) a
unfolding read_aggregator
read_aggregator-write a h k =
    Reads-bind _ a.asn (Reads-le 4 a.asn h) (Reads-map _ (Reads-le 4 a.origin k))

pub read_values-write :
    (vs : List ℕ) → All (λ v. v < 2 ^ 32) vs → Reads (read_values (length vs)) (write_values vs) vs
unfolding read_values write_values
read_values-write [] h = Reads-pure []
read_values-write (v ∷ vs) (h, hs) =
    Reads-bind _ v (Reads-le 4 v h) (Reads-map (λ ws. v ∷ ws) (read_values-write vs hs))

pub read_communities-write :
    (cs : List CommunitySegment)
    → All (λ c. (c.asn < 2 ^ 32) × (c.value < 2 ^ 32)) cs
    → Reads (read_communities (length cs)) (write_communities cs) cs
unfolding read_communities write_communities
read_communities-write [] h = Reads-pure []
read_communities-write (c ∷ cs) (h, hs) = Reads-bind _ c.asn (Reads-le 4 c.asn h.0) (
    Reads-bind _ c.value (Reads-le 4 c.value h.1)
      (Reads-map (λ ds. c ∷ ds) (read_communities-write cs hs)))

-- The widths of the fields, and arrays as long as their length field says.
pub record PathFits (s : AsPathSegment) : Type 0 where
  pub short : s.length < 256
  pub typed : s.seg_type < 256
  pub whole : length s.seg_value ≡ s.length
  pub values : All (λ v. v < 2 ^ 32) s.seg_value

pub read_path-write :
    (s : AsPathSegment)
    → PathFits s
    → Reads read_path
        (le_bytes 1 s.length ++ (le_bytes 1 s.seg_type ++ write_values (take s.length s.seg_value)))
        s
unfolding read_path
read_path-write s w = Reads-bind _ s.length (Reads-le 1 s.length w.short) (
    Reads-bind _ s.seg_type (Reads-le 1 s.seg_type w.typed) (
      Reads-map (λ vs. record { seg_type = s.seg_type; length = s.length; seg_value = vs }) values))
  where
    values : Reads (read_values s.length) (write_values (take s.length s.seg_value)) s.seg_value
    values =
        subst (λ n. Reads (read_values n) (write_values (take n s.seg_value)) s.seg_value) w.whole
          (subst (λ vs. Reads (read_values (length s.seg_value)) (write_values vs) s.seg_value)
            (sym (take_all s.seg_value)) (read_values-write s.seg_value w.values))

pub record NlriFits (n : Nlri) : Type 0 where
  pub bgp_id : n.bgp_id < 2 ^ 32
  pub prefix : n.prefix < 2 ^ 32
  pub prefix_highest : n.prefix_highest < 2 ^ 32
  pub subnet_mask : n.subnet_mask < 2 ^ 32
  pub prefix_length : n.prefix_length < 256
  pub withdrawn : n.withdrawn < 2 ^ 16
  pub received : n.received < 2 ^ 16
  pub age : n.age < 2 ^ 64
  pub last_withdraw_time : n.last_withdraw_time < 2 ^ 64

abbrev pub nlri_bytes : Nlri → List ℕ
nlri_bytes n =
    le_bytes 8 n.age
    ++ (le_bytes 4 n.bgp_id
        ++ (le_bytes 8 n.last_withdraw_time
            ++ (le_bytes 4 n.prefix
                ++ (le_bytes 4 n.prefix_highest
                    ++ (le_bytes 1 n.prefix_length
                        ++ (le_bytes 2 n.received
                            ++ (le_bytes 4 n.subnet_mask ++ le_bytes 2 n.withdrawn)))))))

pub read_nlri-write : (v n : Nlri) → NlriFits n → Reads (read_nlri v) (nlri_bytes n) n
unfolding read_nlri
read_nlri-write v n w = Reads-bind _ n.age (Reads-le 8 n.age w.age) (
    Reads-bind _ n.bgp_id (Reads-le 4 n.bgp_id w.bgp_id) (
      Reads-bind _ n.last_withdraw_time (Reads-le 8 n.last_withdraw_time w.last_withdraw_time) (
        Reads-bind _ n.prefix (Reads-le 4 n.prefix w.prefix) (
          Reads-bind _ n.prefix_highest (Reads-le 4 n.prefix_highest w.prefix_highest) (
            Reads-bind _ n.prefix_length (Reads-le 1 n.prefix_length w.prefix_length) (
              Reads-bind _ n.received (Reads-le 2 n.received w.received) (
                Reads-bind _ n.subnet_mask (Reads-le 4 n.subnet_mask w.subnet_mask) (
                  Reads-map (λ x. record n { withdrawn = x })
                    (Reads-le 2 n.withdrawn w.withdrawn)))))))))
