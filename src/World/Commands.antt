-- ===== src/World/Commands.antt =====
-- src/bgp.cpp and cli/bgp_cli.cpp: deletion of a peer and the commands, on a sound daemon.
use log2bgp.Base.{
  ltb, ◌-◌, if◌then◌else◌, ℕ, zero, suc, ◌+◌, ◌%◌, ◌^◌, Option, List, [], ◌∷◌, All, get_elem?,
  erase_at, ◌==◌, Bool-cases, Option-cases, inl, inr, length, arith,
}
use log2bgp.Base.Text.{codes}
use log2bgp.Peer.{Peer, TranslateAttrib, copy_peer}
use log2bgp.Bgp.{Bgp}
use log2bgp.Threads.{delete_peer, delete_loop, start_peer, peer_exists, same_text}
use log2bgp.Alias.{set_translation, erase_same}
use log2bgp.Cli.Settings.{
  token, toggle, proto_bgp_toggle_update_dump, kill_all_signal, set_bgp_id, proto_bgp_neighbor,
  new_neighbor, peer_params,
}
use log2bgp.World.Yields.{Yields, Yields-then}
use log2bgp.World.Bytes.{All-append}
use log2bgp.World.Peers.{PeerFits, input_of}
use log2bgp.World.Sound.{Sound}
use log2bgp.Cli.Buffers.{set_rx, set_tx}
use log2bgp.Cli.Numbers.{string_to_uint32_t}

All-erase_at :
    {A : Type 0} (P : A → Type 0) (i : ℕ) (xs : List A) → All P xs → All P (erase_at i xs)
unfolding erase_at
All-erase_at P zero [] h = tt
All-erase_at P zero (x ∷ xs) h = h.1
All-erase_at P (suc i) [] h = tt
All-erase_at P (suc i) (x ∷ xs) h = (h.0, All-erase_at P i xs h.1)

delete_loop-PeerFits :
    (fuel i self : ℕ) (ps : List Peer)
    → All PeerFits ps
    → Yields (All PeerFits) (delete_loop fuel i self ps)
unfolding delete_loop
delete_loop-PeerFits zero i self ps h = tt
delete_loop-PeerFits (suc fuel) i self ps h = elim (Option-cases (get_elem? ps i)) [
  | inl e ↦ rw (e, delete_loop) h
  | inr (p, e) ↦ elim (Option-cases (get_elem? ps self)) [
    | inl gone ↦ rw (e, gone, delete_loop) tt
    | inr (peer, f) ↦ elim (Bool-cases (p.bgp_id == peer.bgp_id)) [
      | inr other ↦
          rw (e, f, other, delete_loop) (delete_loop-PeerFits fuel ((i + 1) % 256) self ps h)
      | inl same ↦ elim (Bool-cases (i == self)) [
        | inl here ↦ rw (e, f, same, here, delete_loop) tt
        | inr before ↦
            rw (e, f, same, before, delete_loop)
              (delete_loop-PeerFits fuel ((i + 1) % 256) (if ltb i self then self - 1 else self)
                (erase_at i ps) (All-erase_at PeerFits i ps h))
      ]
    ]
  ]
]

pub delete_peer-PeerFits :
    (self : ℕ) (ps : List Peer) → All PeerFits ps → Yields (All PeerFits) (delete_peer self ps)
unfolding delete_peer
delete_peer-PeerFits self ps h = delete_loop-PeerFits (suc (length ps)) 0 self ps h

pub set_translation-PeerFits :
    (sort : List TranslateAttrib → List TranslateAttrib) (code value : ℕ) (name : List ℕ) (p : Peer)
    → PeerFits p
    → Yields PeerFits (set_translation sort code value name p)
unfolding set_translation
set_translation-PeerFits sort code value name p w =
    Yields-then PeerFits (erase_same (length p.translate_attribs) 0 code value p.translate_attribs)
      _ λ kept. record { id = w.id; queue = w.queue; input = w.input }

pub set_rx-PeerFits : (tcp bgp : ℕ) (p : Peer) → PeerFits p → PeerFits (set_rx tcp bgp p)
unfolding set_rx
set_rx-PeerFits tcp bgp p w = record { id = w.id; queue = w.queue; input = w.input }

pub set_tx-PeerFits : (tcp bgp : ℕ) (p : Peer) → PeerFits p → PeerFits (set_tx tcp bgp p)
unfolding set_tx
set_tx-PeerFits tcp bgp p w = record { id = w.id; queue = w.queue; input = w.input }

-- The daemon after a command.
abbrev pub Answered : List ℕ × Bgp → Type 0
Answered (text, c) = Sound c

copy_peer-PeerFits : (p : Peer) → PeerFits (copy_peer p)
unfolding copy_peer input_of
copy_peer-PeerFits p = record { id = omega arith; queue = tt; input = tt }

new_neighbor-Answered :
    (p : Peer) (tokens : List (List ℕ)) (b : Bgp)
    → Sound b
    → Yields Answered (new_neighbor p tokens b)
unfolding new_neighbor start_peer
new_neighbor-Answered p tokens b w = elim (Bool-cases (peer_exists p b.thread_q)) [
  | inl e ↦ rw (e, new_neighbor) w
  | inr e ↦
      rw (e, new_neighbor)
        (Yields-then Answered (token tokens 3) _ λ text. record {
          table = record {
            well_formed = w.table.well_formed;
            routed = w.table.routed;
            peers =
                All-append PeerFits b.thread_q _ w.table.peers
                  (copy_peer-PeerFits (record p { asn = string_to_uint32_t text % 2 ^ 16 }), tt);
          };
          updates = w.updates;
          withdrawals = w.withdrawals;
        })
]

pub proto_bgp_neighbor-Answered :
    (heap : List ℕ) (inet_pton : List ℕ → Option ℕ) (inet_ntop : ℕ → List ℕ)
    (tokens : List (List ℕ)) (b : Bgp)
    → Sound b
    → Yields Answered (proto_bgp_neighbor heap inet_pton inet_ntop tokens b)
unfolding proto_bgp_neighbor
proto_bgp_neighbor-Answered heap inet_pton inet_ntop tokens b w =
    Yields-then Answered (token tokens 1) _
      λ ip. new_neighbor-Answered (peer_params heap inet_ntop (inet_pton ip)) tokens b w

toggle-Answered : (setting : List ℕ) (b : Bgp) → Sound b → Answered (toggle setting b)
unfolding toggle
toggle-Answered setting b w = elim (Bool-cases (same_text setting (codes "on"))) [
  | inl e ↦
      rw (e, toggle) (record { table = w.table; updates = w.updates; withdrawals = w.withdrawals })
  | inr e ↦ elim (Bool-cases (same_text setting (codes "off"))) [
    | inl f ↦
        rw (e, f, toggle)
          (record { table = w.table; updates = w.updates; withdrawals = w.withdrawals })
    | inr f ↦ rw (e, f, toggle) w
  ]
]

pub proto_bgp_toggle_update_dump-Answered :
    (tokens : List (List ℕ)) (b : Bgp)
    → Sound b
    → Yields Answered (proto_bgp_toggle_update_dump tokens b)
unfolding proto_bgp_toggle_update_dump
proto_bgp_toggle_update_dump-Answered tokens b w =
    Yields-then Answered (token tokens 1) _ λ setting. toggle-Answered setting b w

pub set_bgp_id-Answered :
    (inet_aton : List ℕ → Option ℕ) (stack : ℕ) (tokens : List (List ℕ)) (b : Bgp)
    → Sound b
    → Yields Answered (set_bgp_id inet_aton stack tokens b)
unfolding set_bgp_id
set_bgp_id-Answered inet_aton stack tokens b w =
    Yields-then Answered (token tokens 1) _
      λ ip. record { table = w.table; updates = w.updates; withdrawals = w.withdrawals }

pub kill_all_signal-Sound : (b : Bgp) → Sound b → Sound (kill_all_signal b).1
unfolding kill_all_signal
kill_all_signal-Sound b w = record {
  table = w.table;
  updates = w.updates;
  withdrawals = w.withdrawals;
}
