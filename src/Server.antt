-- ===== src/Server.antt =====
-- src/tcp_server.cpp: a connection of the command line and a connection of the API, as the bytes that
-- the client sends until it closes and the bytes that are sent to it. A text is the bytes up to its NUL.
-- Sockets, threads and the streams themselves are calls of the system.
pub mod Framing
pub mod ApiOnly
pub mod Queries
pub mod Harmless
pub mod Program
use log2bgp.Base.{
  ℕ, zero, suc, ◌+◌, ◌/◌, ◌%◌, ◌^◌, Bool, true, false, List, [], ◌∷◌, ◌++◌, length, take, drop, ltb,
  leb, ◌==◌, if◌then◌else◌, Result, ok, fault, no_fuel, read_out_of_bounds, write_out_of_bounds,
  ensure, ◌>>=◌, ◌>>◌,
}
use log2bgp.Base.Text.{codes}
use log2bgp.Threads.{same_text}
use log2bgp.Cli.{tokens_from}

-- What a connection uses of the daemon: tcp_execute_line of a text, and stop_and_exit.
pub record Executor (Daemon : Type 0) : Type 0 where
  pub execute : List ℕ → Daemon → Result (List ℕ × Daemon)
  pub stop_and_exit : Daemon → Bool

-- The text at the front of an array of 255 bytes that is 0 behind the bytes read into it: with no 0 in
-- it, the text ends beyond the array.
unfoldable pub c_string : List ℕ → List ℕ
c_string [] = []
c_string (c ∷ bytes) = if c == 0 then [] else c ∷ c_string bytes

unfoldable pub text_of : List ℕ → Result (List ℕ)
unfolding c_string
text_of bytes =
    let text = c_string bytes in if ltb (length text) 255 then ok text else fault read_out_of_bounds

-- The length in four bytes, the high byte first, then the data.
unfoldable pub reply : List ℕ → List ℕ
reply data_sent =
    let len = length data_sent % 2 ^ 32 in
    len / 2 ^ 24 ∷ len / 2 ^ 16 % 256 ∷ len / 2 ^ 8 % 256 ∷ len % 256 ∷ data_sent

-- fgetws: up to `n` characters, and none behind the end of a line.
unfoldable pub fgetws : ℕ → List ℕ → List ℕ
fgetws zero input = []
fgetws (suc n) [] = []
fgetws (suc n) (c ∷ input) = if c == b'\n' then c ∷ [] else c ∷ fgetws n input

-- is_api_call: the first token is read also where there is none.
unfoldable pub first_is_api : List (List ℕ) → Result Bool
unfolding same_text
first_is_api [] = fault read_out_of_bounds
first_is_api (t ∷ ts) = ok (same_text t (codes "api-get"))

unfoldable pub is_api_call : List ℕ → Result Bool
unfolding tokens_from first_is_api
is_api_call text = first_is_api (tokens_from [] text)

-- The characters of the array of 255: what fgetws has stored, or, where nothing was left to read,
-- what the stack held.
unfoldable pub wbuffer : List ℕ → List ℕ → Result (List ℕ)
unfolding c_string
wbuffer stack [] = ok stack
wbuffer stack (c ∷ got) =
    ensure (ltb (length (c ∷ got)) 255) write_out_of_bounds >> ok (c_string (c ∷ got))

-- to_narrow_str.
unfoldable pub to_narrow_str : List ℕ → List ℕ
to_narrow_str [] = []
to_narrow_str (c ∷ text) = c % 256 ∷ to_narrow_str text

module _ {Daemon : Type 0} (daemon : Executor Daemon) where
  -- What follows the fread of a turn: nothing, if no byte was read.
  unfoldable pub answer_bytes : List ℕ → Daemon → Result (List ℕ × Daemon)
  unfolding text_of reply
  answer_bytes [] d = ok ([], d)
  answer_bytes (c ∷ bytes) d = do
    text ← text_of (c ∷ bytes)
    (answer, d') ← daemon.execute text d
    ok (reply answer, d')

  -- connection_loop, on fuel. A read that is cut off ends the input, and so the loop.
  unfoldable pub connection_loop : ℕ → List ℕ → Daemon → Result (List ℕ × Daemon)
  unfolding answer_bytes
  connection_loop zero input d = fault no_fuel
  connection_loop (suc fuel) [] d = ok ([], d)
  connection_loop (suc fuel) (len ∷ input) d = elim (daemon.stop_and_exit d) [
    | true ↦ ok ([], d)
    | false ↦ do
      (sent, d') ← answer_bytes (take len input) d
      (more, d'') ← connection_loop fuel (drop len input) d'
      ok (sent ++ more, d'')
  ]

  -- The narrow text is tested whole, and executed up to its first NUL.
  unfoldable pub answer_api : List ℕ → Daemon → Result (List ℕ × Daemon)
  unfolding is_api_call c_string to_narrow_str
  answer_api text d = do
    legal ← is_api_call (to_narrow_str text)
    if legal
        then daemon.execute (c_string (to_narrow_str text)) d
        else ok (codes "bgpd: illegal API call", d)

  -- sinatra_api.
  unfoldable pub sinatra_api : List ℕ → List ℕ → Daemon → Result (List ℕ × Daemon)
  unfolding answer_api wbuffer fgetws
  sinatra_api stack [] d = ok ([], d)
  sinatra_api stack (len ∷ input) d =
      if daemon.stop_and_exit d
      then ok ([], d)
      else if len == 0
      then ok (codes "bgpd: illegal API call", d)
      else (wbuffer stack (fgetws len input) >>= λ text. answer_api text d)
