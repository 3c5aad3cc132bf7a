-- ===== src/Cli/Restore.antt =====
-- cli/bgp_cli.cpp: the line that write_configs writes for a neighbor, read as a command.
use log2bgp.Base.{
  ℕ, ◌^◌, ◌%◌, ◌<◌, ◌≡◌, refl, sym, ap, ◌∙◌, true, false, Option, some, List, [], ◌∷◌, ◌++◌,
  append_assoc, arith, All, ok, get_elem?,
}
use log2bgp.Base.Text.{codes, decimal}
use log2bgp.Peer.{Peer, copy_peer}
use log2bgp.Bgp.{Bgp}
use log2bgp.Threads.{peer_exists, start_peer}
use log2bgp.Cli.{
  Command, command, no_command, name, is_prefix, is_value, takes, cmd_init, below_root, sort_levels,
  below_last, sort_commands, sorted_in, name_lt, execute_line,
}
use log2bgp.Cli.Answer.{calls}
use log2bgp.Cli.Handler.{proto_bgp_neighbor as neighbor_handler}
use log2bgp.Cli.Table.{cmds}
use log2bgp.Cli.Numbers.{string_to_uint32_t, string_to_uint32_t-decimal}
use log2bgp.Cli.Search.{In, Leads, root_count, sub_count}
use log2bgp.Cli.Words.{IsToken, spaced, execute_line-Leads}
use log2bgp.Cli.Settings.{token, peer_params, new_neighbor, proto_bgp_neighbor}
use log2bgp.Cli.Config.{to_value, root_neighbor}
use log2bgp.Cli.Roundtrip.{no_space, word-IsToken, decimal-IsToken}
use log2bgp.Cli.Save.{neighbor_line, peer_config}

unfoldable pub neighbor_tokens : Peer → List (List ℕ)
neighbor_tokens p = codes "neighbor" ∷ p.p_ip ∷ codes "remote-as" ∷ decimal p.asn ∷ []

neighbor_tokens-IsToken : (p : Peer) → IsToken p.p_ip → All IsToken (neighbor_tokens p)
unfolding neighbor_tokens no_space log2bgp.Cli.is_space
neighbor_tokens-IsToken p w =
    (word-IsToken _ _ refl, (w, (word-IsToken _ _ refl, (decimal-IsToken p.asn, tt))))

-- The command behind the words of the line.
abbrev as_command : Command
as_command = command (codes "<1-65535>") neighbor_handler no_command

remote_as_found :
    (c : Command) × In c (cmd_init cmds)
    × (is_prefix (codes "neighbor") (name c) ≡ true)
    × ((p : Peer) → Leads c (p.p_ip ∷ codes "remote-as" ∷ decimal p.asn ∷ []) as_command)
unfolding root_count sub_count takes cmd_init below_root sort_levels below_last sort_commands
    sorted_in name_lt is_prefix is_value
remote_as_found = (
  _,
  In.later (In.later (In.later (In.later (In.here refl)))),
  refl,
  λ p.
      to_value refl refl
        (Leads.down (In.later (In.later (In.here refl))) refl refl (to_value refl refl Leads.stop)),
)

abbrev line_of : Peer → List ℕ
line_of p = codes "  neighbor " ++ (p.p_ip ++ (codes " remote-as " ++ decimal p.asn))

line_of-spaced : (p : Peer) → line_of p ≡ 32 ∷ 32 ∷ spaced (neighbor_tokens p)
unfolding spaced neighbor_tokens
line_of-spaced p = refl

neighbor_line-line_of :
    (p : Peer) (rest : List ℕ) → neighbor_line p ++ rest ≡ line_of p ++ (b'\n' ∷ rest)
unfolding neighbor_line
neighbor_line-line_of p rest =
    ap (λ l. codes "  neighbor " ++ l)
      (append_assoc p.p_ip _ rest
        ∙ ap (λ l. p.p_ip ++ (codes " remote-as " ++ l)) (append_assoc (decimal p.asn) _ rest)
        ∙ sym (
            append_assoc p.p_ip _ (b'\n' ∷ rest)
            ∙ ap (λ l. p.p_ip ++ (codes " remote-as " ++ l)) refl))

peer_config-line_of :
    (ip_to_string : ℕ → List ℕ) (logging : ℕ → Option (List ℕ × ℕ)) (p : Peer)
    → (rest : List ℕ) × (peer_config ip_to_string logging p
        ≡ codes "  !\n" ++ (line_of p ++ (b'\n' ∷ rest)))
unfolding peer_config
peer_config-line_of ip_to_string logging p =
    (_, ap (λ l. codes "  !\n" ++ l) (neighbor_line-line_of p _))

neighbor_run :
    (heap : List ℕ) (inet_pton : List ℕ → Option ℕ) (inet_ntop : ℕ → List ℕ) (ip : ℕ) (p : Peer)
    (b : Bgp)
    → p.asn < 2 ^ 16
    → inet_pton p.p_ip ≡ some ip
    → inet_ntop ip ≡ p.p_ip
    → peer_exists (peer_params heap inet_ntop (some ip)) b.thread_q ≡ false
    → (q : Peer) × (proto_bgp_neighbor heap inet_pton inet_ntop (neighbor_tokens p) b
        ≡ ok ([], record b { thread_q = b.thread_q ++ (q ∷ []) }))
      × (q.p_ip ≡ p.p_ip)
      × (q.asn ≡ p.asn)
unfolding proto_bgp_neighbor new_neighbor token neighbor_tokens start_peer copy_peer peer_params
    get_elem?
neighbor_run heap inet_pton inet_ntop ip p b w h k e = (
  copy_peer (record (peer_params heap inet_ntop (some ip)) {
    asn = string_to_uint32_t (decimal p.asn) % 2 ^ 16;
  }),
  rw (h, e) refl,
  k,
  ap (λ n. n % 2 ^ 16) (string_to_uint32_t-decimal p.asn (omega (arith, w))) ∙ omega (arith, w),
)

-- The first line that write_configs writes for a neighbor whose address is a word without white space
-- and whose AS has 16 bits is read by the command line as the command that adds a neighbor, and where
-- inet_pton and inet_ntop agree on the address and no peer of the table has it, this adds one peer at
-- the end of the table, with the address and the AS of the neighbor.
pub neighbor_config_roundtrip :
    (ip_to_string : ℕ → List ℕ) (heap : List ℕ) (inet_pton : List ℕ → Option ℕ)
    (inet_ntop : ℕ → List ℕ) (logging : ℕ → Option (List ℕ × ℕ)) (ip : ℕ) (p : Peer) (b : Bgp)
    → IsToken p.p_ip
    → p.asn < 2 ^ 16
    → inet_pton p.p_ip ≡ some ip
    → inet_ntop ip ≡ p.p_ip
    → peer_exists (peer_params heap inet_ntop (some ip)) b.thread_q ≡ false
    → (line : List ℕ) × (rest : List ℕ) × (tokens : List (List ℕ)) × (q : Peer) × (peer_config
          ip_to_string logging p
        ≡ codes "  !\n" ++ (line ++ (b'\n' ∷ rest)))
      × (execute_line (cmd_init cmds) line ≡ calls neighbor_handler tokens)
      × (proto_bgp_neighbor heap inet_pton inet_ntop tokens b
          ≡ ok ([], record b { thread_q = b.thread_q ++ (q ∷ []) }))
      × (q.p_ip ≡ p.p_ip)
      × (q.asn ≡ p.asn)
unfolding neighbor_tokens
neighbor_config_roundtrip ip_to_string heap inet_pton inet_ntop logging ip p b v w h k e =
    let (c, i, f, path) = remote_as_found in
    let (rest, text) = peer_config-line_of ip_to_string logging p in
    let (q, run, same_ip, same_as) = neighbor_run heap inet_pton inet_ntop ip p b w h k e in
    (
      line_of p,
      rest,
      neighbor_tokens p,
      q,
      text,
      ap (execute_line (cmd_init cmds)) (line_of-spaced p)
          ∙ execute_line-Leads (cmd_init cmds) true (codes "neighbor") _ c _
              (neighbor_tokens-IsToken p v) i f root_neighbor (path p),
      run,
      same_ip,
      same_as,
    )
