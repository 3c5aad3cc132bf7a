-- ===== src/Cli/Roundtrip.antt =====
-- cli/bgp_cli.cpp: the line that write_configs writes for the name of an AS, read as a command.
use log2bgp.Base.{
  ℕ, suc, ◌^◌, ◌<◌, ◌≡◌, refl, sym, ap, ◌∙◌, Bool, true, false, not, ◌&&◌, some, List, [], ◌∷◌,
  ◌++◌, append_assoc, arith, All, ok, ◌>>=◌, get_elem?,
}
use log2bgp.Base.Text.{codes, decimal}
use log2bgp.Peer.{TranslateAttrib, Peer}
use log2bgp.Bgp.{Bgp}
use log2bgp.Threads.{get_peer_by_str_ip, write_peer}
use log2bgp.Alias.{set_translation}
use log2bgp.Cli.{is_space, cmd_init, execute_line}
use log2bgp.Cli.Answer.{calls}
use log2bgp.Cli.Handler.{proto_bgp_attribute_aspath_translate_value as aspath_handler}
use log2bgp.Cli.Table.{cmds}
use log2bgp.Cli.Numbers.{is_digit, AllDigits, digits_of-IsDecimal, string_to_uint32_t-decimal}
use log2bgp.Cli.Words.{IsToken, execute_line-Leads}
use log2bgp.Cli.Settings.{
  token, with_peer, at_peer, translate_number, proto_bgp_attribute_aspath_translate_value,
}
use log2bgp.Cli.Config.{
  alias_text, alias_config, root_neighbor, neighbor_found, as_path_line, as_path_tokens,
  as_path_line-spaced,
}

digits_no_space : (t : List ℕ) → AllDigits t → All (λ c. is_space c ≡ false) t
unfolding is_space is_digit
digits_no_space [] h = tt
digits_no_space (c ∷ t) (h, hs) = (ground (arith, h), digits_no_space t hs)

pub decimal-IsToken : (n : ℕ) → IsToken (decimal n)
unfolding decimal
decimal-IsToken n =
    let w = digits_of-IsDecimal (suc n) n (omega arith) in
    record {
      first = w.first;
      others = w.others;
      bytes = w.bytes;
      no_space = digits_no_space (decimal n) (w.digits);
    }

-- A word without white space, by a test.
unfoldable pub no_space : List ℕ → Bool
no_space [] = true
no_space (c ∷ t) = not (is_space c) && no_space t

no_space-All : (t : List ℕ) → no_space t ≡ true → All (λ c. is_space c ≡ false) t
unfolding no_space
no_space-All [] h = tt
no_space-All (c ∷ t) h = (ground (arith, h), no_space-All t (ground (arith, h)))

pub word-IsToken : (c : ℕ) (t : List ℕ) → no_space (c ∷ t) ≡ true → IsToken (c ∷ t)
word-IsToken c t h = record {
  first = c;
  others = t;
  bytes = refl;
  no_space = no_space-All (c ∷ t) h;
}

tokens-IsToken :
    (p_ip new_value : List ℕ) (value : ℕ)
    → IsToken p_ip
    → IsToken new_value
    → All IsToken (as_path_tokens p_ip value new_value)
unfolding as_path_tokens no_space is_space
tokens-IsToken p_ip new_value value w v = (
  word-IsToken _ _ refl,
  (
    w,
    (
      word-IsToken _ _ refl,
      (word-IsToken _ _ refl, (word-IsToken _ _ refl, (decimal-IsToken value, (v, tt)))),
    ),
  ),
)

as_path_line-append :
    (p_ip new_value rest : List ℕ) (value : ℕ)
    → as_path_line p_ip value new_value ++ rest
      ≡ codes "  neighbor "
        ++ (p_ip
            ++ (codes " attribute "
                ++ (codes "as-path alias " ++ (decimal value ++ (b' ' ∷ (new_value ++ rest))))))
as_path_line-append p_ip new_value rest value =
    ap (λ l. codes "  neighbor " ++ l)
      (append_assoc p_ip _ rest
        ∙ ap (λ l. p_ip ++ (codes " attribute " ++ (codes "as-path alias " ++ l)))
            (append_assoc (decimal value) (b' ' ∷ new_value) rest))

alias_config-as_path :
    (ip_to_string : ℕ → List ℕ) (p_ip new_value : List ℕ) (value : ℕ) (l : List TranslateAttrib)
    → alias_config ip_to_string p_ip
        (record { code = 0x02; value = value; printable_attrib = new_value } ∷ l)
      ≡ as_path_line p_ip value new_value ++ (b'\n' ∷ alias_config ip_to_string p_ip l)
unfolding alias_config alias_text
alias_config-as_path ip_to_string p_ip new_value value l =
    let rest = alias_config ip_to_string p_ip l in
    ap
      (λ t. codes "  neighbor " ++ (p_ip ++ (codes " attribute " ++ (codes "as-path alias " ++ t))))
      (append_assoc (decimal value) (b' ' ∷ (new_value ++ (b'\n' ∷ []))) rest
        ∙ ap (λ t. decimal value ++ (b' ' ∷ t)) (append_assoc new_value (b'\n' ∷ []) rest))
    ∙ sym (as_path_line-append p_ip new_value (b'\n' ∷ rest) value)

aspath_run :
    (sort : List TranslateAttrib → List TranslateAttrib) (p_ip new_value : List ℕ) (value : ℕ)
    (b : Bgp) (p : Peer)
    → value < 2 ^ 32
    → get_peer_by_str_ip p_ip b.thread_q ≡ some p
    → proto_bgp_attribute_aspath_translate_value sort (as_path_tokens p_ip value new_value) b ≡ (
        set_translation sort 0x02 value new_value p >>= λ q.
        ok ([], record b { thread_q = write_peer p_ip q b.thread_q }))
unfolding proto_bgp_attribute_aspath_translate_value translate_number with_peer at_peer token
    as_path_tokens get_elem?
aspath_run sort p_ip new_value value b p h k = rw (k, string_to_uint32_t-decimal value h) refl

-- The line that write_configs writes for the name of an AS number of 32 bits, for a peer in the table
-- whose address and name are words without white space, is read by the command line as the command
-- that gives this name to this number at this peer: the handler is called with the words of the line,
-- and its effect is that of set_translation on the peer of that address.
pub as_path_alias_roundtrip :
    (sort : List TranslateAttrib → List TranslateAttrib) (ip_to_string : ℕ → List ℕ)
    (p_ip new_value : List ℕ) (value : ℕ) (l : List TranslateAttrib) (b : Bgp) (p : Peer)
    → IsToken p_ip
    → IsToken new_value
    → value < 2 ^ 32
    → get_peer_by_str_ip p_ip b.thread_q ≡ some p
    → (line : List ℕ) × (tokens : List (List ℕ)) × (alias_config ip_to_string p_ip
          (record { code = 0x02; value = value; printable_attrib = new_value } ∷ l)
        ≡ line ++ (b'\n' ∷ alias_config ip_to_string p_ip l))
      × (execute_line (cmd_init cmds) line ≡ calls aspath_handler tokens)
      × (proto_bgp_attribute_aspath_translate_value sort tokens b ≡ (
          set_translation sort 0x02 value new_value p >>= λ q.
          ok ([], record b { thread_q = write_peer p_ip q b.thread_q })))
unfolding as_path_tokens
as_path_alias_roundtrip sort ip_to_string p_ip new_value value l b p w v h k =
    let (c, i, e, path) = neighbor_found in
    (
      as_path_line p_ip value new_value,
      as_path_tokens p_ip value new_value,
      alias_config-as_path ip_to_string p_ip new_value value l,
      ap (execute_line (cmd_init cmds)) (as_path_line-spaced p_ip value new_value)
          ∙ execute_line-Leads (cmd_init cmds) true (codes "neighbor") _ c _
              (tokens-IsToken p_ip new_value value w v) i e root_neighbor
              (path p_ip (decimal value) new_value),
      aspath_run sort p_ip new_value value b p h k,
    )
