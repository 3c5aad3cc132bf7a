-- ===== src/Server/Queries.antt =====
-- src/tcp_server.cpp: what a connection of the API can make the daemon execute.
use log2bgp.Base.{
  ℕ, ◌≡◌, refl, sym, ap, subst, ◌∙◌, Bool, true, false, ◌&&◌, not, List, [], ◌∷◌, ◌++◌, ◌==◌, ==→eq,
  arith, append_assoc, Bool-cases, inl, inr, ok, ok_inj,
}
use log2bgp.Base.Text.{codes}
use log2bgp.Cli.{is_space, token_of, tokens_from}
use log2bgp.Server.{c_string, first_is_api}
use log2bgp.Server.ApiOnly.{same_text-eq}

tokens_from-space :
    (q t : List ℕ) (d : ℕ)
    → is_space d ≡ true
    → tokens_from q (d ∷ t) ≡ token_of q ++ tokens_from [] t
unfolding tokens_from
tokens_from-space q t d s = rw (s, tokens_from) refl

tokens_from-char :
    (q t : List ℕ) (d : ℕ)
    → is_space d ≡ false
    → tokens_from q (d ∷ t) ≡ tokens_from (q ++ (d ∷ [])) t
unfolding tokens_from
tokens_from-char q t d s = rw (s, tokens_from) refl

token_of-snoc : (q : List ℕ) (c : ℕ) → token_of (q ++ (c ∷ [])) ≡ (q ++ (c ∷ [])) ∷ []
unfolding token_of
token_of-snoc [] c = refl
token_of-snoc (x ∷ q) c = refl

-- A token that goes on behind its first characters.
tokens_from-starts :
    (q t : List ℕ) (c : ℕ)
    → (r : List ℕ) × (ts : List (List ℕ)) × (tokens_from (q ++ (c ∷ [])) t ≡ (q ++ (c ∷ r)) ∷ ts)
unfolding tokens_from
tokens_from-starts q [] c = ([], [], token_of-snoc q c)
tokens_from-starts q (d ∷ t) c = elim (Bool-cases (is_space d)) [
  | inl s ↦ (
    [],
    tokens_from [] t,
    tokens_from-space (q ++ (c ∷ [])) t d s ∙ ap (λ l. l ++ tokens_from [] t) (token_of-snoc q c),
  )
  | inr s ↦
      let (r, ts, e) = tokens_from-starts (q ++ (c ∷ [])) t d in
      (
        d ∷ r,
        ts,
        tokens_from-char (q ++ (c ∷ [])) t d s
            ∙ e
            ∙ ap (λ l. l ∷ ts) (append_assoc q (c ∷ []) (d ∷ r)),
      )
]

-- No character of a token is 0.
no_nul : List ℕ → Bool
no_nul [] = true
no_nul (c ∷ t) = not (c == 0) && no_nul t

no_nul-append : (q r : List ℕ) → no_nul (q ++ (0 ∷ r)) ≡ false
unfolding no_nul
no_nul-append [] r = refl
no_nul-append (c ∷ q) r = ground (arith, no_nul-append q r)

-- A first token with a NUL in it is not that of the API.
nul_is_not_api : (q t : List ℕ) → first_is_api (tokens_from (q ++ (0 ∷ [])) t) ≡ ok true → ⊥
unfolding first_is_api no_nul
nul_is_not_api q t h =
    let (r, ts, e) = tokens_from-starts q t 0 in
    let same =
      same_text-eq (q ++ (0 ∷ r)) (codes "api-get") (ok_inj (ap first_is_api (sym e) ∙ h)) in
    let both : false ≡ true = sym (no_nul-append q r) ∙ ap no_nul same in cc

c_string-nul : (c : ℕ) (t : List ℕ) → (c == 0) ≡ true → c_string (c ∷ t) ≡ []
unfolding c_string
c_string-nul c t z = rw (z, c_string) refl

c_string-char : (c : ℕ) (t : List ℕ) → (c == 0) ≡ false → c_string (c ∷ t) ≡ c ∷ c_string t
unfolding c_string
c_string-char c t z = rw (z, c_string) refl

-- The first token ends where a space follows it, or is still to come.
first_is_api-token :
    (q : List ℕ) (ts us : List (List ℕ))
    → (first_is_api ts ≡ ok true → first_is_api us ≡ ok true)
    → first_is_api (token_of q ++ ts) ≡ ok true
    → first_is_api (token_of q ++ us) ≡ ok true
unfolding first_is_api token_of
first_is_api-token [] ts us later h = later h
first_is_api-token (x ∷ q) ts us later h = h

nul_is_char : is_space 0 ≡ false
unfolding is_space
nul_is_char = refl

-- What is cut off behind a NUL does not change the first token.
pub first_is_api-c_string :
    (q t : List ℕ)
    → first_is_api (tokens_from q t) ≡ ok true
    → first_is_api (tokens_from q (c_string t)) ≡ ok true
unfolding c_string
first_is_api-c_string q [] h = h
first_is_api-c_string q (c ∷ t) h = elim (Bool-cases (c == 0)) [
  | inl z ↦
      let e =
        tokens_from-char q t c (subst (λ n. is_space n ≡ false) (sym (==→eq c 0 z)) nul_is_char) in
      absurd (
        nul_is_not_api q t (
          subst (λ n. first_is_api (tokens_from (q ++ (n ∷ [])) t) ≡ ok true) (==→eq c 0 z)
            (ap first_is_api (sym e) ∙ h)))
  | inr z ↦
      ap (λ l. first_is_api (tokens_from q l)) (c_string-char c t z)
      ∙ elim (Bool-cases (is_space c)) [
        | inl s ↦
            ap first_is_api (tokens_from-space q (c_string t) c s)
            ∙ first_is_api-token q (tokens_from [] t) (tokens_from [] (c_string t))
                (first_is_api-c_string [] t) (ap first_is_api (sym (tokens_from-space q t c s)) ∙ h)
        | inr s ↦
            ap first_is_api (tokens_from-char q (c_string t) c s)
            ∙ first_is_api-c_string (q ++ (c ∷ [])) t
                (ap first_is_api (sym (tokens_from-char q t c s)) ∙ h)
      ]
]
