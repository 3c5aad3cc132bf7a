-- ===== src/Server/Harmless.antt =====
-- src/tcp_server.cpp: what a connection of the API can do to the daemon.
use log2bgp.Base.{
  ℕ, ◌≡◌, refl, Bool, true, false, List, [], ◌∷◌, ◌==◌, if◌then◌else◌, Bool-cases, inl, inr, Result,
  Fault, ok, fault, ◌>>=◌,
}
use log2bgp.Base.Text.{codes}
use log2bgp.Cli.{Handler, cmd_init, execute_line}
use log2bgp.Cli.Answer.{calls}
use log2bgp.Cli.Table.{cmds}
use log2bgp.Server.{
  Executor, c_string, fgetws, is_api_call, wbuffer, to_narrow_str, answer_api, sinatra_api,
}
use log2bgp.Server.ApiOnly.{is_api, is_api_call-is_api}
use log2bgp.Server.Queries.{first_is_api-c_string}

-- The ways a connection can end: a fault; a text, with the daemon as it was; or what the daemon makes
-- of one line that calls a query of the API.
pub data Harmless {Daemon : Type 0} (daemon : Executor Daemon) (d : Daemon)
    : Result (List ℕ × Daemon) → Type 0 where
  faults : (e : Fault) → Harmless daemon d (fault e)
  says : (text : List ℕ) → Harmless daemon d (ok (text, d))
  queries :
      (line : List ℕ) (h : Handler) (tokens : List (List ℕ))
      → execute_line (cmd_init cmds) line ≡ calls h tokens
      → is_api h ≡ true
      → Harmless daemon d (daemon.execute line d)

is_api_call-c_string : (t : List ℕ) → is_api_call t ≡ ok true → is_api_call (c_string t) ≡ ok true
unfolding is_api_call
is_api_call-c_string t h = first_is_api-c_string [] t h

module _ {Daemon : Type 0} (daemon : Executor Daemon) where
  abbrev when_legal : List ℕ → Daemon → Bool → Result (List ℕ × Daemon)
  when_legal text d legal =
      if legal
      then daemon.execute (c_string (to_narrow_str text)) d
      else ok (codes "bgpd: illegal API call", d)

  when_legal-Harmless :
      (text : List ℕ) (d : Daemon) (m : Result Bool)
      → is_api_call (to_narrow_str text) ≡ m
      → Harmless daemon d (m >>= when_legal text d)
  when_legal-Harmless text d (fault x) e = Harmless.faults x
  when_legal-Harmless text d (ok false) e = Harmless.says _
  when_legal-Harmless text d (ok true) e =
      let (h, tokens, c, k) =
        is_api_call-is_api (c_string (to_narrow_str text))
          (is_api_call-c_string (to_narrow_str text) e) in
      Harmless.queries _ h tokens c k

  answer_api-Harmless : (text : List ℕ) (d : Daemon) → Harmless daemon d (answer_api daemon text d)
  unfolding answer_api
  answer_api-Harmless text d = when_legal-Harmless text d _ refl

  read-Harmless :
      (d : Daemon) (m : Result (List ℕ))
      → Harmless daemon d (m >>= λ text. answer_api daemon text d)
  read-Harmless d (ok text) = answer_api-Harmless text d
  read-Harmless d (fault e) = Harmless.faults e

  -- Whatever a client of the API sends, and whatever the stack held: the connection faults, or sends a
  -- text and leaves the daemon as it was, or has the daemon execute one line, for which the command line
  -- calls one of the four queries of the API.
  pub sinatra_api-Harmless :
      (stack input : List ℕ) (d : Daemon) → Harmless daemon d (sinatra_api daemon stack input d)
  unfolding sinatra_api
  sinatra_api-Harmless stack [] d = Harmless.says []
  sinatra_api-Harmless stack (len ∷ input) d = elim (Bool-cases (daemon.stop_and_exit d)) [
    | inl s ↦ rw s (Harmless.says [])
    | inr s ↦ elim (Bool-cases (len == 0)) [
      | inl z ↦ rw (s, z) (Harmless.says _)
      | inr z ↦ rw (s, z) (read-Harmless d (wbuffer stack (fgetws len input)))
    ]
  ]
