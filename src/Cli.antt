-- ===== src/Cli.antt =====
-- cli/bgp_cmdparser.cpp and include/cli/bgp_cmdparser.h: the tree of commands and the search in it.
-- A name is the list of its bytes; a Handler is the member function that a command points to.
pub mod Table
pub mod Search
pub mod Words
pub mod Numbers
pub mod Config
pub mod Roundtrip
pub mod Save
pub mod Restore
pub mod Show
pub mod Buffers
pub mod Settings
use log2bgp.Base.{
  ℕ, zero, suc, ◌==◌, ltb, Bool, true, false, ◌&&◌, ◌||◌, Option, none, some, List, [], ◌∷◌, ◌++◌,
  if◌then◌else◌,
}
use log2bgp.Base.Text.{codes}

-- The functions of the class BGP in the table.
pub data Handler : Type 0 where
  api_get_prefix : Handler
  api_get_all_origin_as : Handler
  api_get_public_origin_as : Handler
  api_get_private_origin_as : Handler
  show : Handler
  show_bgp_prefix : Handler
  show_bgp_neighbors : Handler
  show_bgp_adj_rib_in : Handler
  show_bgp_adj_rib_wdrawn : Handler
  write_configs : Handler
  proto_bgp_toggle_update_dump : Handler
  proto_bgp_neighbor : Handler
  set_peer_logging : Handler
  proto_bgp_peer_rcv_buffer_size : Handler
  proto_bgp_peer_snd_buffer_size : Handler
  proto_bgp_peer_timers : Handler
  proto_bgp_peer_attribute : Handler
  proto_bgp_attribute_bgp_id_translate_value : Handler
  proto_bgp_attribute_origin_translate_value : Handler
  proto_bgp_attribute_aspath_translate_value : Handler
  proto_bgp_attribute_nexthop_translate_value : Handler
  proto_bgp_attribute_v4nexthop_translate_value : Handler
  proto_bgp_attribute_med_translate_value : Handler
  proto_bgp_attribute_localpref_translate_value : Handler
  proto_bgp_attribute_atomicaggr_translate_value : Handler
  proto_bgp_attribute_community_translate_value : Handler
  set_bgp_id : Handler
  kill_all_signal : Handler

-- COMMAND, and the vectors of them.
infixr 20 ◌+:◌
mutual
  pub data Command : Type 0 where
    command : List ℕ → Handler → Commands → Command

  pub data Commands : Type 0 where
    no_command : Commands
    ◌+:◌ : Command → Commands → Commands

abbrev pub name : Command → List ℕ
name (command n h subs) = n

abbrev pub func : Command → Handler
func (command n h subs) = h

abbrev pub sub_command : Command → Commands
sub_command (command n h subs) = subs

-- !name.compare(0, token.length(), token): the token is a prefix of the name.
unfoldable pub is_prefix : List ℕ → List ℕ → Bool
is_prefix [] n = true
is_prefix (c ∷ t) [] = false
is_prefix (c ∷ t) (d ∷ n) = c == d && is_prefix t n

-- name[0] == '<'.
unfoldable pub is_value : List ℕ → Bool
is_value [] = false
is_value (c ∷ n) = c == b'<'

-- The loop over the commands of the root: the last that matches is kept.
unfoldable pub find_root : List ℕ → Commands → Option Command
unfolding is_prefix
find_root t no_command = none
find_root t (c +: cs) = elim (find_root t cs) [
  | some d ↦ some d
  | none ↦ if is_prefix t (name c) then some c else none
]

-- The loop over the commands below one: the first that matches ends it.
unfoldable pub takes : List ℕ → Command → Bool
unfolding is_prefix is_value
takes t c = is_prefix t (name c) || is_value (name c)

unfoldable pub find_sub : List ℕ → Commands → Option Command
unfolding takes
find_sub t no_command = none
find_sub t (c +: cs) = if takes t c then some c else find_sub t cs

-- The while loop: a token that nothing below takes is left out.
unfoldable pub down_to : Command → Option Command → Command
down_to c none = c
down_to c (some d) = d

unfoldable pub walk : List (List ℕ) → Command → Command
unfolding find_sub down_to
walk [] c = c
walk (t ∷ ts) c = walk ts (down_to c (find_sub t (sub_command c)))

unfoldable pub walked : List (List ℕ) → Option Command → Option Command
unfolding walk
walked ts none = none
walked ts (some c) = some (walk ts c)

-- FindCommand; `none` is the null pointer.
unfoldable pub find_command : Commands → List (List ℕ) → Option Command
unfolding find_root walked
find_command cs [] = none
find_command cs (t ∷ ts) = walked ts (find_root t cs)

-- compare_cmd and std::sort by it, for names that differ: the bytes are compared in order.
unfoldable pub name_lt : List ℕ → List ℕ → Bool
name_lt n [] = false
name_lt [] (d ∷ m) = true
name_lt (c ∷ n) (d ∷ m) = ltb c d || (c == d && name_lt n m)

unfoldable pub sorted_in : Command → Commands → Commands
unfolding name_lt
sorted_in c no_command = c +: no_command
sorted_in c (d +: ds) = if name_lt (name d) (name c) then d +: sorted_in c ds else c +: d +: ds

unfoldable pub sort_commands : Commands → Commands
unfolding sorted_in
sort_commands no_command = no_command
sort_commands (c +: cs) = sorted_in c (sort_commands cs)

-- What `f` does to the vector below the last command.
unfoldable pub below_last : (Commands → Commands) → Commands → Commands
below_last f no_command = no_command
below_last f (command n h subs +: no_command) = command n h (f subs) +: no_command
below_last f (c +: d +: ds) = c +: below_last f (d +: ds)

-- The inner loop of CmdInit, on fuel: the vector is sorted, then the vector below its last command.
unfoldable pub sort_levels : ℕ → Commands → Commands
unfolding sort_commands below_last
sort_levels zero cs = cs
sort_levels (suc fuel) cs = below_last (sort_levels fuel) (sort_commands cs)

-- CmdInit: the loop over the table, and the sort of the root. No path has more commands than the
-- fuel.
unfoldable pub below_root : Commands → Commands
unfolding sort_levels
below_root no_command = no_command
below_root (command n h subs +: cs) = command n h (sort_levels 10 subs) +: below_root cs

unfoldable pub cmd_init : Commands → Commands
unfolding below_root sort_commands
cmd_init cs = sort_commands (below_root cs)

-- The tokens of a line, as operator>> of an istringstream reads them: white space parts them.
unfoldable pub is_space : ℕ → Bool
is_space c = c == 32 || (ltb 8 c && ltb c 14)

unfoldable pub token_of : List ℕ → List (List ℕ)
token_of [] = []
token_of (c ∷ t) = (c ∷ t) ∷ []

unfoldable pub tokens_from : List ℕ → List ℕ → List (List ℕ)
unfolding is_space token_of
tokens_from t [] = token_of t
tokens_from t (c ∷ line) = elim (is_space c) [
  | true ↦ token_of t ++ tokens_from [] line
  | false ↦ tokens_from (t ++ (c ∷ [])) line
]

-- What a line does: it is answered by a text, or it calls a handler with the tokens.
pub data Answer : Type 0 where
  said : List ℕ → Answer
  calls : Handler → List (List ℕ) → Answer

unfoldable pub answer : List ℕ → List (List ℕ) → Option Command → Answer
answer line tokens none = said (line ++ codes " % invalid command.\n")
answer line tokens (some cmd) = calls (func cmd) tokens

-- ExecuteLine.
unfoldable pub execute_line : Commands → List ℕ → Answer
unfolding tokens_from find_command answer
execute_line cs [] = said []
execute_line cs (c ∷ line) =
    let tokens = tokens_from [] (c ∷ line) in answer (c ∷ line) tokens (find_command cs tokens)
