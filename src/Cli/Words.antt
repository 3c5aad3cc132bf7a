-- ===== src/Cli/Words.antt =====
-- cli/bgp_cmdparser.cpp: a line of tokens with spaces between them, from the bytes to the handler.
use log2bgp.Base.{
  ℕ, ◌≡◌, refl, sym, ap, ◌∙◌, Bool, true, false, some, List, [], ◌∷◌, ◌++◌, append-nil,
  append_assoc, All,
}
use log2bgp.Cli.{
  Command, Commands, name, func, is_prefix, find_command, is_space, token_of, tokens_from,
  execute_line, answer,
}
use log2bgp.Cli.Answer.{calls}
use log2bgp.Cli.Search.{In, Leads, root_count, find_command-Leads}

-- A token has a byte, and none that is white space.
pub record IsToken (t : List ℕ) : Type 0 where
  pub first : ℕ
  pub others : List ℕ
  pub bytes : t ≡ first ∷ others
  pub no_space : All (λ c. is_space c ≡ false) t

-- The tokens, with one space between them.
unfoldable pub spaced : List (List ℕ) → List ℕ
spaced [] = []
spaced (t ∷ []) = t
spaced (t ∷ u ∷ ts) = t ++ (32 ∷ spaced (u ∷ ts))

-- The lines of the configuration stand behind two spaces.
abbrev pub indent : Bool → List ℕ → List ℕ
indent true line = 32 ∷ 32 ∷ line
indent false line = line

token_of-IsToken : (t : List ℕ) → IsToken t → token_of t ≡ t ∷ []
unfolding token_of
token_of-IsToken t w = ap token_of (w.bytes) ∙ ap (λ u. u ∷ []) (sym (w.bytes))

tokens_from-byte :
    (u : List ℕ) (c : ℕ) (line : List ℕ)
    → is_space c ≡ false
    → tokens_from u (c ∷ line) ≡ tokens_from (u ++ (c ∷ [])) line
unfolding tokens_from
tokens_from-byte u c line h = rw (h, tokens_from) refl

-- Bytes that are no white space gather in the token.
tokens_from-bytes :
    (u t rest : List ℕ)
    → All (λ c. is_space c ≡ false) t
    → tokens_from u (t ++ rest) ≡ tokens_from (u ++ t) rest
unfolding tokens_from
tokens_from-bytes u [] rest h = ap (λ v. tokens_from v rest) (sym (append-nil u))
tokens_from-bytes u (c ∷ t) rest (h, hs) =
    tokens_from-byte u c (t ++ rest) h
    ∙ tokens_from-bytes (u ++ (c ∷ [])) t rest hs
    ∙ ap (λ v. tokens_from v rest) (append_assoc u (c ∷ []) t)

tokens_from-spaced : (ts : List (List ℕ)) → All IsToken ts → tokens_from [] (spaced ts) ≡ ts
unfolding tokens_from spaced is_space
tokens_from-spaced [] h = refl
tokens_from-spaced (t ∷ []) (w, h) =
    ap (λ v. tokens_from [] v) (sym (append-nil t))
    ∙ tokens_from-bytes [] t [] (w.no_space)
    ∙ token_of-IsToken t w
tokens_from-spaced (t ∷ u ∷ ts) (w, h) =
    tokens_from-bytes [] t (32 ∷ spaced (u ∷ ts)) (w.no_space)
    ∙ ap (λ v. v ++ tokens_from [] (spaced (u ∷ ts))) (token_of-IsToken t w)
    ∙ ap (◌∷◌ t) (tokens_from-spaced (u ∷ ts) h)

spaced-IsToken :
    (t : List ℕ) (ts : List (List ℕ))
    → IsToken t
    → (c : ℕ) × (line : List ℕ) × (spaced (t ∷ ts) ≡ c ∷ line)
unfolding spaced
spaced-IsToken t [] w = (w.first, w.others, w.bytes)
spaced-IsToken t (u ∷ ts) w =
    (w.first, w.others ++ (32 ∷ spaced (u ∷ ts)), ap (λ v. v ++ (32 ∷ spaced (u ∷ ts))) (w.bytes))

execute_line-cons :
    (cs : Commands) (c : ℕ) (line : List ℕ) (ts : List (List ℕ)) (e : Command)
    → tokens_from [] (c ∷ line) ≡ ts
    → find_command cs ts ≡ some e
    → execute_line cs (c ∷ line) ≡ calls (func e) ts
unfolding execute_line answer
execute_line-cons cs c line ts e h k =
    ap (λ us. answer (c ∷ line) us (find_command cs us)) h ∙ ap (answer (c ∷ line) ts) k

-- A line of tokens with one space between them, behind two spaces or none, the first of which
-- abbreviates one command of the root and the others of which each stand for one command below the
-- command before, calls the handler of the command at the end of this path, with these tokens.
pub execute_line-Leads :
    (cs : Commands) (indented : Bool) (t : List ℕ) (ts : List (List ℕ)) (c e : Command)
    → All IsToken (t ∷ ts)
    → In c cs
    → is_prefix t (name c) ≡ true
    → root_count t cs ≡ 1
    → Leads c ts e
    → execute_line cs (indent indented (spaced (t ∷ ts))) ≡ calls (func e) (t ∷ ts)
unfolding tokens_from token_of is_space
execute_line-Leads cs true t ts c e w i h k l =
    execute_line-cons cs 32 (32 ∷ spaced (t ∷ ts)) (t ∷ ts) e (tokens_from-spaced (t ∷ ts) w)
      (find_command-Leads cs t ts c e i h k l)
execute_line-Leads cs false t ts c e (w, ws) i h k l =
    let (b, line, f) = spaced-IsToken t ts w in
    ap (execute_line cs) f
    ∙ execute_line-cons cs b line (t ∷ ts) e
        (ap (tokens_from []) (sym f) ∙ tokens_from-spaced (t ∷ ts) (w, ws))
        (find_command-Leads cs t ts c e i h k l)
