-- ===== src/World/Sound.antt =====
-- src/bgp.cpp: what holds of the tables and queues of the daemon at all times.
use log2bgp.Base.{ℕ, ◌^◌, ◌≤◌, ◌<◌, ◌≡◌, refl, sym, ap, subst, ◌∙◌, List, All}
use log2bgp.Msg.{Update}
use log2bgp.Peer.{Peer}
use log2bgp.Bgp.{Bgp, NlriParse}
use log2bgp.OrderedMap.Laws.{Each}
use log2bgp.Decode.Nlri.{new_nlri}
use log2bgp.Rib.{Rib}
use log2bgp.Rib.WellFormed.{KeyFits, IsWellFormed}
use log2bgp.World.Peers.{PeerFits}

-- An update whose nlri parse_nlri has made of a prefix of 1 to 32 bits.
pub record IsRouted (u : Update) : Type 0 where
  pub flag : NlriParse
  pub now : ℕ
  pub bgp_id : ℕ
  pub prefix_length : ℕ
  pub prefix : ℕ
  pub made : u.nlri ≡ new_nlri flag now bgp_id prefix_length prefix
  pub positive : 1 ≤ prefix_length
  pub short : prefix_length ≤ 32
  pub prefix_fits : prefix < 2 ^ 32
  pub id_fits : bgp_id < 2 ^ 32

new_nlri-key :
    (flag : NlriParse) (now bgp_id prefix_length prefix : ℕ)
    → let n = new_nlri flag now bgp_id prefix_length prefix in
      (n.prefix ≡ prefix) × (n.bgp_id ≡ bgp_id) × (n.prefix_length ≡ prefix_length)
unfolding new_nlri
new_nlri-key NlriParse.update now bgp_id prefix_length prefix = (refl, refl, refl)
new_nlri-key NlriParse.withdraw now bgp_id prefix_length prefix = (refl, refl, refl)

-- The key and the length of a route are those it was made of.
pub IsRouted-key :
    (u : Update) (w : IsRouted u)
    → (u.nlri.prefix ≡ w.prefix)
      × (u.nlri.bgp_id ≡ w.bgp_id)
      × (u.nlri.prefix_length ≡ w.prefix_length)
IsRouted-key u w =
    let (p, i, l) = new_nlri-key w.flag w.now w.bgp_id w.prefix_length w.prefix in
    (
      ap (λ n. n.prefix) (w.made) ∙ p,
      ap (λ n. n.bgp_id) (w.made) ∙ i,
      ap (λ n. n.prefix_length) (w.made) ∙ l,
    )

pub IsRouted-KeyFits : (u : Update) → IsRouted u → KeyFits u
IsRouted-KeyFits u w =
    let (p, i, l) = IsRouted-key u w in
    (subst (λ n. n < 2 ^ 32) (sym p) w.prefix_fits, subst (λ n. n < 2 ^ 32) (sym i) w.id_fits)

-- The table, sorted, with each route under its own key, all of them made by parse_nlri; and the peers.
pub record TableSound (q : List Peer) (m : Rib) : Type 0 where
  pub well_formed : IsWellFormed m
  pub routed : Each (λ k u. IsRouted u) m
  pub peers : All PeerFits q

pub record Sound (b : Bgp) : Type 0 where
  pub table : TableSound b.thread_q b.adj_rib_in
  pub updates : All IsRouted b.adj_rib_in_q
  pub withdrawals : All IsRouted b.adj_rib_in_wdraw_q
