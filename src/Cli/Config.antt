-- ===== src/Cli/Config.antt =====
-- cli/bgp_cli.cpp: the lines that write_configs writes for the names of a peer, read back as lines of
-- the command line.
use log2bgp.Base.{
  ℕ, ◌≡◌, refl, sym, ap, subst, ◌∙◌, true, List, [], ◌∷◌, ◌++◌, ◌==◌, if◌then◌else◌, arith,
}
use log2bgp.Base.Text.{codes, decimal}
use log2bgp.Peer.{TranslateAttrib}
use log2bgp.Cli.{
  Command, command, no_command, ◌+:◌, name, sub_command, is_prefix, is_value, takes, cmd_init,
  below_root, sort_levels, below_last, sort_commands, sorted_in, name_lt,
}
use log2bgp.Cli.Handler.{proto_bgp_attribute_aspath_translate_value}
use log2bgp.Cli.Table.{cmds}
use log2bgp.Cli.Search.{In, Leads, root_count, sub_count}
use log2bgp.Cli.Words.{spaced}

-- The line of one name, after the attribute it is for. The codes that are not implemented write
-- nothing, not even the end of the line.
unfoldable pub alias_text : (ℕ → List ℕ) → TranslateAttrib → List ℕ
alias_text ip_to_string a =
    if a.code == 0x00
    then codes "bgp-id alias " ++ (a.printable_attrib ++ codes "\n")
    else if a.code == 0x02
    then codes "as-path alias " ++ (decimal a.value ++ (b' ' ∷ a.printable_attrib ++ codes "\n"))
    else if a.code == 0x03
    then codes "next-hop alias ipv4 "
      ++ (ip_to_string a.value ++ (b' ' ∷ a.printable_attrib ++ codes "\n"))
    else if a.code == 0x08
    then codes "community alias " ++ (decimal a.value ++ (b' ' ∷ a.printable_attrib ++ codes "\n"))
    else []

-- The loop over the names of a peer that has some.
unfoldable pub alias_config : (ℕ → List ℕ) → List ℕ → List TranslateAttrib → List ℕ
unfolding alias_text
alias_config ip_to_string p_ip [] = []
alias_config ip_to_string p_ip (a ∷ l) =
    codes "  neighbor "
    ++ (p_ip
        ++ (codes " attribute " ++ (alias_text ip_to_string a ++ alias_config ip_to_string p_ip l)))

-- A word that a value takes.
takes-is_value : (t : List ℕ) (c : Command) → is_value (name c) ≡ true → takes t c ≡ true
unfolding takes
takes-is_value t c h = ground arith

value_count :
    (t : List ℕ) (c : Command) → is_value (name c) ≡ true → sub_count t (c +: no_command) ≡ 1
unfolding sub_count
value_count t c h = rw (takes-is_value t c h, sub_count) refl

-- A value is the only command below another, so any word leads to it.
pub to_value :
    {c d e : Command} {t : List ℕ} {ts : List (List ℕ)}
    → sub_command c ≡ d +: no_command
    → is_value (name d) ≡ true
    → Leads d ts e
    → Leads c (t ∷ ts) e
to_value {d = d} {t = t} h k l =
    Leads.down (subst (In d) (sym h) (In.here refl)) (takes-is_value t d k)
      (ap (sub_count t) h ∙ value_count t d k) l

pub root_neighbor : root_count (codes "neighbor") (cmd_init cmds) ≡ 1
unfolding root_count cmd_init below_root sort_levels below_last sort_commands sorted_in name_lt
    is_prefix
root_neighbor = refl

pub neighbor_found :
    (c : Command) × In c (cmd_init cmds)
    × (is_prefix (codes "neighbor") (name c) ≡ true)
    × ((p_ip value new_value : List ℕ)
        → Leads c
            (p_ip ∷ codes "attribute" ∷ codes "as-path" ∷ codes "alias" ∷ value ∷ new_value ∷ [])
            (command (codes "<new value>") proto_bgp_attribute_aspath_translate_value no_command))
unfolding root_count sub_count takes cmd_init below_root sort_levels below_last sort_commands
    sorted_in name_lt is_prefix is_value
neighbor_found = (
  _,
  In.later (In.later (In.later (In.later (In.here refl)))),
  refl,
  λ p_ip value new_value. to_value refl refl (
      Leads.down (In.here refl) refl refl (
        Leads.down (In.later (In.later (In.here refl))) refl refl (
          Leads.down (In.here refl) refl refl
            (to_value refl refl (to_value refl refl Leads.stop))))),
)

-- The line of a name of an AS, without its end.
abbrev pub as_path_line : List ℕ → ℕ → List ℕ → List ℕ
as_path_line p_ip value new_value =
    codes "  neighbor "
    ++ (p_ip
        ++ (codes " attribute "
            ++ (codes "as-path alias " ++ (decimal value ++ (b' ' ∷ new_value)))))

unfoldable pub as_path_tokens : List ℕ → ℕ → List ℕ → List (List ℕ)
as_path_tokens p_ip value new_value =
    codes "neighbor"
    ∷ p_ip
    ∷ codes "attribute"
    ∷ codes "as-path"
    ∷ codes "alias"
    ∷ decimal value
    ∷ new_value
    ∷ []

pub as_path_line-spaced :
    (p_ip : List ℕ) (value : ℕ) (new_value : List ℕ)
    → as_path_line p_ip value new_value ≡ 32 ∷ 32 ∷ spaced (as_path_tokens p_ip value new_value)
unfolding spaced as_path_tokens
as_path_line-spaced p_ip value new_value = refl
