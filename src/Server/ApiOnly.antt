-- ===== src/Server/ApiOnly.antt =====
-- src/tcp_server.cpp and cli/bgp_cmdparser.cpp: what a text that passes is_api_call can execute.
use log2bgp.Base.{
  ℕ, ◌≡◌, refl, ap, ◌∙◌, Bool, true, false, ◌&&◌, Option, none, some, List, [], ◌∷◌, arith, ok,
  ok_inj,
}
use log2bgp.Base.Text.{codes}
use log2bgp.Threads.{same_text}
use log2bgp.Cli.{
  Handler, Command, command, Commands, no_command, ◌+:◌, func, is_prefix, find_root, find_sub,
  down_to, walk, walked, find_command, sort_commands, sorted_in, name_lt, below_last, sort_levels,
  below_root, cmd_init, tokens_from, token_of, answer, execute_line,
}
use log2bgp.Cli.Handler.{
  api_get_prefix, api_get_all_origin_as, api_get_public_origin_as, api_get_private_origin_as,
}
use log2bgp.Cli.Answer.{calls}
use log2bgp.Cli.Table.{cmds}
use log2bgp.Server.{first_is_api, is_api_call}

-- The queries of the API.
pub is_api : Handler → Bool
is_api api_get_prefix = true
is_api api_get_all_origin_as = true
is_api api_get_public_origin_as = true
is_api api_get_private_origin_as = true
is_api _ = false

-- A command and all commands below it call queries of the API.
unfoldable mutual
  all_api : Command → Bool
  all_api (command n h subs) = is_api h && each_api subs

  each_api : Commands → Bool
  each_api no_command = true
  each_api (c +: cs) = all_api c && each_api cs

find_sub-all_api :
    (t : List ℕ) (cs : Commands) (d : Command)
    → each_api cs ≡ true
    → find_sub t cs ≡ some d
    → all_api d ≡ true
unfolding find_sub all_api
find_sub-all_api t no_command d h e = cc
find_sub-all_api t (c +: cs) d h e = ground (arith, h, e, find_sub-all_api t cs d)

down_to-all_api :
    (c : Command) (o : Option Command)
    → all_api c ≡ true
    → ((d : Command) → o ≡ some d → all_api d ≡ true)
    → all_api (down_to c o) ≡ true
unfolding down_to
down_to-all_api c none h k = h
down_to-all_api c (some d) h k = k d refl

walk-all_api : (ts : List (List ℕ)) (c : Command) → all_api c ≡ true → all_api (walk ts c) ≡ true
unfolding walk all_api
walk-all_api [] c h = h
walk-all_api (t ∷ ts) (command n f subs) h = walk-all_api ts _ (
    down_to-all_api (command n f subs) (find_sub t subs) h
      (λ d. find_sub-all_api t subs d (ground (arith, h))))

all_api-func : (c : Command) → all_api c ≡ true → is_api (func c) ≡ true
unfolding all_api
all_api-func (command n f subs) h = ground (arith, h)

pub same_text-eq : (n m : List ℕ) → same_text n m ≡ true → n ≡ m
unfolding same_text
same_text-eq [] [] h = refl
same_text-eq [] (d ∷ m) h = cc
same_text-eq (c ∷ n) [] h = cc
same_text-eq (c ∷ n) (d ∷ m) h = ground (arith, h, same_text-eq n m)

-- The only command of the table that the token abbreviates.
api_get_found :
    (c : Command) × (find_root (codes "api-get") (cmd_init cmds) ≡ some c) × (all_api c ≡ true)
unfolding find_root is_prefix cmd_init below_root sort_levels below_last sort_commands sorted_in
    name_lt all_api is_api
api_get_found = (_, refl, refl)

api_token :
    (tokens : List (List ℕ))
    → first_is_api tokens ≡ ok true
    → (ts : List (List ℕ)) × (tokens ≡ codes "api-get" ∷ ts)
unfolding first_is_api
api_token [] h = cc
api_token (t ∷ ts) h = (ts, ap (λ u. u ∷ ts) (same_text-eq t (codes "api-get") (ok_inj h)))

-- Whatever text passes is_api_call, the command line calls one of the four queries of the API for it:
-- no other command can be reached, by no abbreviation and by no later token.
pub is_api_call-is_api :
    (text : List ℕ)
    → is_api_call text ≡ ok true
    → (h : Handler) × (tokens : List (List ℕ)) × (execute_line (cmd_init cmds) text
        ≡ calls h tokens)
      × (is_api h ≡ true)
unfolding execute_line find_command walked answer is_api_call first_is_api tokens_from token_of
is_api_call-is_api [] h = cc
is_api_call-is_api (b ∷ text) h =
    let (c, e, k) = api_get_found in
    let (ts, f) = api_token (tokens_from [] (b ∷ text)) h in
    (
      func (walk ts c),
      codes "api-get" ∷ ts,
      ap (λ us. answer (b ∷ text) us (find_command (cmd_init cmds) us)) f
          ∙ ap (λ o. answer (b ∷ text) (codes "api-get" ∷ ts) (walked ts o)) e,
      all_api-func (walk ts c) (walk-all_api ts c k),
    )
