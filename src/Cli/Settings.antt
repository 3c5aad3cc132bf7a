-- ===== src/Cli/Settings.antt =====
-- cli/bgp_cli.cpp: the commands that change the daemon, as they are called with the tokens of a line.
-- A token that is not there is read beyond the end of the vector. The result is what is sent to the
-- command line, and the daemon afterwards. inet_pton, inet_ntop and inet_aton are parameters.
use log2bgp.Base.{
  ℕ, ◌%◌, ◌^◌, true, false, Option, none, some, List, [], ◌++◌, get_elem?, if◌then◌else◌, Result,
  ok, read_out_of_bounds, or_fault, ◌>>=◌,
}
use log2bgp.Base.Text.{codes}
use log2bgp.Peer.{Peer, TranslateAttrib, new_peer}
use log2bgp.Bgp.{Bgp}
use log2bgp.Threads.{same_text, get_peer_by_str_ip, write_peer, peer_exists, start_peer}
use log2bgp.Alias.{set_translation}
use log2bgp.Cli.Numbers.{string_to_uint32_t}

-- tokens[n].
unfoldable pub token : List (List ℕ) → ℕ → Result (List ℕ)
token tokens n = or_fault (get_elem? tokens n) read_out_of_bounds

-- proto_bgp_toggle_update_dump.
unfoldable pub toggle : List ℕ → Bgp → List ℕ × Bgp
unfolding same_text
toggle setting b =
    if same_text setting (codes "on")
    then (
      codes
          "% Warning: with this option enabled, performance will be degraded during initial convergence\n",
      record b { dumper_on_off = true },
    )
    else ([], if same_text setting (codes "off") then record b { dumper_on_off = false } else b)

unfoldable pub proto_bgp_toggle_update_dump : List (List ℕ) → Bgp → Result (List ℕ × Bgp)
unfolding token toggle
proto_bgp_toggle_update_dump tokens b = do setting ← token tokens 1; ok (toggle setting b)

-- kill_all_signal.
unfoldable pub kill_all_signal : Bgp → List ℕ × Bgp
kill_all_signal b = (codes "% Sent: this->kill_all()", record b { stop_and_exit_instance = true })

-- set_bgp_id: inet_aton returns 0 or 1, so its test against -1 always holds, and for a text that is
-- no address the id is what the stack held.
unfoldable pub set_bgp_id : (List ℕ → Option ℕ) → ℕ → List (List ℕ) → Bgp → Result (List ℕ × Bgp)
unfolding token
set_bgp_id inet_aton stack tokens b = do
  ip ← token tokens 1
  ok ([], record b { bgp_id = elim (inet_aton ip) [ none ↦ stack | some id ↦ id ] })

-- The peer that proto_bgp_neighbor fills in from the address. A text that is no address is no error,
-- and then p_ip is the text that the new peer has from the heap.
unfoldable pub peer_params : List ℕ → (ℕ → List ℕ) → Option ℕ → Peer
peer_params heap inet_ntop none = record new_peer { p_ip = heap }
peer_params heap inet_ntop (some ip) = record new_peer {
  addr_family = 2;
  ipv4 = ip;
  p_ip = inet_ntop ip;
}

unfoldable pub new_neighbor : Peer → List (List ℕ) → Bgp → Result (List ℕ × Bgp)
unfolding peer_exists start_peer token
new_neighbor p tokens b =
    if peer_exists p b.thread_q
    then ok (codes "% Neighbor " ++ (p.p_ip ++ codes " already exists in table\n"), b)
    else (token tokens 3 >>= λ text.
        let q = record p { asn = string_to_uint32_t text % 2 ^ 16 } in
        ok ([], record b { thread_q = start_peer q b.thread_q }))

-- proto_bgp_neighbor. The uint16_t that atoi gives for a number within an int is the number that
-- string_to_uint32_t reads, cut to 16 bits.
unfoldable pub proto_bgp_neighbor :
    List ℕ → (List ℕ → Option ℕ) → (ℕ → List ℕ) → List (List ℕ) → Bgp → Result (List ℕ × Bgp)
unfolding token peer_params new_neighbor
proto_bgp_neighbor heap inet_pton inet_ntop tokens b = do
  ip ← token tokens 1
  new_neighbor (peer_params heap inet_ntop (inet_pton ip)) tokens b

-- The answer for an address that no peer has.
unfoldable pub no_peer : List ℕ → List ℕ
no_peer ip = codes "% Peer " ++ (ip ++ codes " does not exist\n")

-- What a command does to the peer that its first argument names.
unfoldable pub at_peer : List ℕ → (Peer → Result Peer) → Option Peer → Bgp → Result (List ℕ × Bgp)
unfolding no_peer write_peer
at_peer ip f none b = ok (no_peer ip, b)
at_peer ip f (some p) b = do q ← f p; ok ([], record b { thread_q = write_peer ip q b.thread_q })

unfoldable pub with_peer : List (List ℕ) → (Peer → Result Peer) → Bgp → Result (List ℕ × Bgp)
unfolding token at_peer get_peer_by_str_ip
with_peer tokens f b = do ip ← token tokens 1; at_peer ip f (get_peer_by_str_ip ip b.thread_q) b

module _ (sort : List TranslateAttrib → List TranslateAttrib) where
  -- The name of a number: the number is tokens[5], the name is tokens[6].
  unfoldable pub translate_number : ℕ → List (List ℕ) → Bgp → Result (List ℕ × Bgp)
  unfolding with_peer token set_translation
  translate_number code tokens b =
      with_peer tokens
        (λ p. do
          match_value ← token tokens 5
          value ← token tokens 6
          set_translation sort code (string_to_uint32_t match_value) value p)
        b

  unfoldable pub proto_bgp_attribute_aspath_translate_value :
      List (List ℕ) → Bgp → Result (List ℕ × Bgp)
  unfolding translate_number
  proto_bgp_attribute_aspath_translate_value tokens b = translate_number 0x02 tokens b

  unfoldable pub proto_bgp_attribute_med_translate_value :
      List (List ℕ) → Bgp → Result (List ℕ × Bgp)
  unfolding translate_number
  proto_bgp_attribute_med_translate_value tokens b = translate_number 0x04 tokens b

  unfoldable pub proto_bgp_attribute_localpref_translate_value :
      List (List ℕ) → Bgp → Result (List ℕ × Bgp)
  unfolding translate_number
  proto_bgp_attribute_localpref_translate_value tokens b = translate_number 0x05 tokens b

  unfoldable pub proto_bgp_attribute_community_translate_value :
      List (List ℕ) → Bgp → Result (List ℕ × Bgp)
  unfolding translate_number
  proto_bgp_attribute_community_translate_value tokens b = translate_number 0x08 tokens b

  -- The name of the peer: its BGP id is the value.
  unfoldable pub proto_bgp_attribute_bgp_id_translate_value :
      List (List ℕ) → Bgp → Result (List ℕ × Bgp)
  unfolding with_peer token set_translation
  proto_bgp_attribute_bgp_id_translate_value tokens b =
      with_peer tokens (λ p. do value ← token tokens 5; set_translation sort 0x00 p.bgp_id value p)
        b

  unfoldable pub proto_bgp_attribute_origin_translate_value :
      List (List ℕ) → Bgp → Result (List ℕ × Bgp)
  unfolding with_peer set_translation
  proto_bgp_attribute_origin_translate_value tokens b =
      with_peer tokens (λ p. set_translation sort 0x01 0 [] p) b

  -- The name of a next hop; the address 0 stands for a text that is no address.
  unfoldable pub proto_bgp_attribute_v4nexthop_translate_value :
      (List ℕ → Option ℕ) → List (List ℕ) → Bgp → Result (List ℕ × Bgp)
  unfolding with_peer token set_translation
  proto_bgp_attribute_v4nexthop_translate_value inet_pton tokens b =
      with_peer tokens
        (λ p. do
          ip ← token tokens 6
          value ← token tokens 7
          set_translation sort 0x03 (elim (inet_pton ip) [ none ↦ 0 | some a ↦ a ]) value p)
        b
