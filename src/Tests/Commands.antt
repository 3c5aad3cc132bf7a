-- ===== src/Tests/Commands.antt =====
-- Runs of the command line, of the names of attributes, of the table of neighbors and of the API.
use mathlib.Core.List.Permᴰ
use log2bgp.Base.{
  use_after_free, ℕ, ◌≡◌, ◌↔◌, refl, true, false, some, none, List, [], ◌∷◌, ◌++◌, if◌then◌else◌,
  get_elem?, All, ok, fault, read_out_of_bounds, ◌>>=◌, arith,
}
use log2bgp.Base.Text.{codes, decimal}
use log2bgp.Base.Words.{ntohl, byte0, byte1}
use log2bgp.Peer.{Peer, TranslateAttrib}
use log2bgp.Bgp.{Bgp, NlriParse}
use log2bgp.Rib.{Rib}
use log2bgp.Threads.{get_peer_by_str_ip, write_peer, start_peer, peer_exists, delete_peer}
use log2bgp.Threads.Table.{start_peer-peer_exists, delete_peer_use_after_free}
use log2bgp.Alias.{set_translation, find_alias}
use log2bgp.Alias.Names.{IsAliasTable, names}
use log2bgp.Alias.Lookup.{answers, set_translation-find_alias}
use log2bgp.Alias.Replace.{set_translation_stale_size}
use log2bgp.Cli.{
  Command, Commands, command, no_command, ◌+:◌, cmd_init, find_command, execute_line, is_prefix,
  is_value, takes, is_space,
}
use log2bgp.Cli.Handler.{
  proto_bgp_attribute_aspath_translate_value as aspath_handler, show, show_bgp_neighbors,
}
use log2bgp.Cli.Answer.{calls}
use log2bgp.Cli.Table.{cmds}
use log2bgp.Cli.Search.{In, Leads, root_count, sub_count, find_command-none}
use log2bgp.Cli.Words.{IsToken, spaced, indent, execute_line-Leads}
use log2bgp.Cli.Settings.{proto_bgp_attribute_aspath_translate_value}
use log2bgp.Cli.Config.{alias_config}
use log2bgp.Cli.Roundtrip.{no_space, word-IsToken, as_path_alias_roundtrip}
use log2bgp.Decode.Nlri.{new_nlri}
use log2bgp.Api.Match.{in_range, ip_matches}
use log2bgp.Api.Rfc1918.{is_rfc1918, private_address, class_matches, is_rfc1918-private_address}
use log2bgp.Api.Rfc1918.Split.{Interleaved, class_matches-Interleaved}
use log2bgp.Api.Match.Subnet.{SameSubnet, in_range-new_nlri}
use log2bgp.Api.Match.Origin.{PathsFull, some_empty, originated, ip_matches-originated}
use log2bgp.Tests.Data.{daemon, neighbor, one_update}

abbrev address : List ℕ
address = codes "10.0.0.1"

abbrev acme : List ℕ
acme = codes "ACME"

-- A neighbor with one name, in the table of the daemon.
abbrev named : Peer
named = record neighbor {
  p_ip = address;
  translate_attribs =
      (record { code = 0x02; value = 65002; printable_attrib = codes "OTHER" }) ∷ [];
}

abbrev named_daemon : Bgp
named_daemon = record daemon { thread_q = named ∷ [] }

abbrev unsorted : List TranslateAttrib → List TranslateAttrib
unsorted l = l

address-IsToken : IsToken address
unfolding no_space is_space
address-IsToken = word-IsToken _ _ refl

acme-IsToken : IsToken acme
unfolding no_space is_space
acme-IsToken = word-IsToken _ _ refl

named-found : get_peer_by_str_ip address named_daemon.thread_q ≡ some named
unfolding get_peer_by_str_ip
named-found = refl

as_path_alias_roundtrip_example :
    (line : List ℕ) × (tokens : List (List ℕ)) × (alias_config decimal address
        (record { code = 0x02; value = 65001; printable_attrib = acme } ∷ [])
      ≡ line ++ (b'\n' ∷ alias_config decimal address []))
    × (execute_line (cmd_init cmds) line ≡ calls aspath_handler tokens)
    × (proto_bgp_attribute_aspath_translate_value unsorted tokens named_daemon ≡ (
        set_translation unsorted 0x02 65001 acme named >>= λ q.
        ok ([], record named_daemon { thread_q = write_peer address q named_daemon.thread_q })))
as_path_alias_roundtrip_example =
    as_path_alias_roundtrip unsorted decimal address acme 65001 [] named_daemon named
      address-IsToken acme-IsToken (omega arith) named-found

named-IsAliasTable : IsAliasTable named.translate_attribs
unfolding names
named-IsAliasTable = record { unique = λ c v. ground arith }

set_translation-find_alias_example :
    (q : Peer) × (set_translation unsorted 0x02 65001 acme named ≡ ok q)
    × IsAliasTable q.translate_attribs
    × (q.is_aliasing ≡ true)
    × ((c v : ℕ)
        → find_alias c v q.translate_attribs
          ≡ (if answers 0x02 65001 c v then some acme else find_alias c v named.translate_attribs))
unfolding find_alias log2bgp.Rib.memcmp_eq
set_translation-find_alias_example =
    set_translation-find_alias unsorted Permᴰ.refl 0x02 65001 acme named named-IsAliasTable refl

-- A second name behind the first, which is then replaced.
abbrev twice_named : Peer
twice_named = record named {
  translate_attribs =
      named.translate_attribs
      ++ ((record { code = 0x08; value = 5; printable_attrib = acme }) ∷ []);
}

set_translation_stale_size_example :
    set_translation unsorted 0x02 65002 acme twice_named ≡ fault read_out_of_bounds
unfolding get_elem?
set_translation_stale_size_example =
    set_translation_stale_size unsorted 0x02 65002 acme twice_named 0
      (record { code = 0x02; value = 65002; printable_attrib = codes "OTHER" }) refl (refl, refl)
      (omega arith)

-- The second peer of the table is deleted.
abbrev other_neighbor : Peer
other_neighbor = record neighbor { bgp_id = 9 }

delete_peer_use_after_free_example :
    delete_peer 1 (other_neighbor ∷ neighbor ∷ neighbor ∷ []) ≡ fault use_after_free
delete_peer_use_after_free_example =
    delete_peer_use_after_free (other_neighbor ∷ []) (neighbor ∷ []) neighbor (omega arith)
      (refl, tt)

abbrev typed : Peer
typed = record neighbor { addr_family = 2; ipv4 = 16777226; p_ip = address }

start_peer-peer_exists_example : peer_exists typed (start_peer typed []) ≡ peer_exists typed []
start_peer-peer_exists_example = start_peer-peer_exists typed [] (λ e. cc)

-- The address 10.1.2.5 in 10.1.2.0/24.
in_range-new_nlri_example :
    (in_range 84017418 (new_nlri NlriParse.update 100 7 24 131338) ≡ true)
    ↔ SameSubnet 24 84017418 131338
unfolding ntohl
in_range-new_nlri_example =
    in_range-new_nlri NlriParse.update 100 7 24 131338 84017418 (omega arith) (omega arith) refl

abbrev routed : Rib
routed =
    (
      (131338, 7),
      record one_update {
        as_path = some (record { seg_type = 2; length = 2; seg_value = 65001 ∷ 65002 ∷ [] });
      },
    )
    ∷ []

routed-PathsFull : PathsFull routed
routed-PathsFull = (
  record {
    first = 65001;
    others = 65002 ∷ [];
    numbers = refl;
    counted = refl;
    short = omega arith;
  },
  tt,
)

ip_matches-originated_example :
    ip_matches 65002 24 routed
    ≡ (if some_empty 24 routed then fault read_out_of_bounds else ok (originated 65002 24 routed))
ip_matches-originated_example = ip_matches-originated 65002 24 routed ((refl, omega arith), tt)

is_rfc1918-private_address_example :
    is_rfc1918 131338 ≡ private_address (byte0 131338) (byte1 131338)
is_rfc1918-private_address_example = is_rfc1918-private_address 131338

class_matches-Interleaved_example :
    (a b c : List (ℕ × ℕ)) × (class_matches true 65002 24 routed ≡ ok a)
    × (class_matches false 65002 24 routed ≡ ok b)
    × (ip_matches 65002 24 routed ≡ ok c)
    × Interleaved a b c
    × All (λ p. is_rfc1918 (p.0) ≡ true) a
    × All (λ p. is_rfc1918 (p.0) ≡ false) b
class_matches-Interleaved_example = class_matches-Interleaved 65002 24 routed routed-PathsFull

-- A table of one command with one below it.
abbrev neighbors_command : Command
neighbors_command = command (codes "neighbors") show_bgp_neighbors no_command

abbrev show_command : Command
show_command = command (codes "show") show (neighbors_command +: no_command)

abbrev one_command : Commands
one_command = show_command +: no_command

find_command-none_example :
    (find_command one_command (codes "shut" ∷ []) ≡ none)
    ↔ (root_count (codes "shut") one_command ≡ 0)
find_command-none_example = find_command-none one_command (codes "shut") []

-- sh nei
execute_line-Leads_example :
    execute_line one_command (indent false (spaced (codes "sh" ∷ codes "nei" ∷ [])))
    ≡ calls show_bgp_neighbors (codes "sh" ∷ codes "nei" ∷ [])
unfolding takes is_prefix is_value sub_count root_count no_space is_space
execute_line-Leads_example =
    execute_line-Leads one_command false (codes "sh") (codes "nei" ∷ []) show_command
      neighbors_command (word-IsToken _ _ refl, (word-IsToken _ _ refl, tt)) (In.here refl) refl
      refl (Leads.down (In.here refl) refl refl Leads.stop)
