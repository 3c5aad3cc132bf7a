-- ===== src/Tests/Server.antt =====
-- Runs of the two connections of src/tcp_server.cpp.
use log2bgp.Base.{
  true, none, ℕ, ◌+◌, ◌≡◌, refl, false, List, [], ◌∷◌, ◌++◌, arith, ok, fault, read_out_of_bounds,
  replicate,
}
use log2bgp.Base.Text.{codes}
use log2bgp.Server.{Executor, connection_loop, sinatra_api}
use log2bgp.Server.Framing.{IsCommand, requests, received, execute_all, connection_loop_roundtrip}
use log2bgp.Bgp.{Bgp}
use log2bgp.Server.Program.{program}
use log2bgp.Tests.Data.{daemon}
use log2bgp.Server.Harmless.{Harmless, sinatra_api-Harmless}

-- A daemon that repeats the command, and counts.
abbrev echo : Executor ℕ
echo = record { execute = λ text n. ok (text ++ (n ∷ []), n + 1); stop_and_exit = λ n. false }

-- The daemon itself, where the commands that are not modelled say nothing, and where no text is an
-- address.
abbrev program_of : Executor Bgp
program_of = program (λ t. none) (λ t. none) (λ a. []) (λ l. l) 0 [] true (λ h tokens b. ok ([], b))

abbrev dumper_on : List ℕ
dumper_on = codes "dumper on"

abbrev kill_all : List ℕ
kill_all = codes "kill-all"

dumper_on-IsCommand : IsCommand dumper_on
dumper_on-IsCommand = record {
  first = _;
  others = _;
  bytes = refl;
  short = omega arith;
  no_nul = ground arith;
}

kill_all-IsCommand : IsCommand kill_all
kill_all-IsCommand = record {
  first = _;
  others = _;
  bytes = refl;
  short = omega arith;
  no_nul = ground arith;
}

abbrev warning : List ℕ
warning =
    codes
      "% Warning: with this option enabled, performance will be degraded during initial convergence\n"

-- The daemon after both commands, the second of which stops it.
abbrev stopped : Bgp
stopped = record daemon { dumper_on_off = true; stop_and_exit_instance = true }

connection_loop_roundtrip_example :
    (sent : List ℕ) × (connection_loop program_of 3 (requests (dumper_on ∷ kill_all ∷ [])) daemon
      ≡ ok (sent, stopped))
    × (received 2 sent ≡ warning ∷ codes "% Sent: this->kill_all()" ∷ [])
unfolding execute_all log2bgp.Server.Framing.StaysOpen log2bgp.Server.Program.perform
    log2bgp.Cli.execute_line log2bgp.Cli.cmd_init log2bgp.Cli.Settings.proto_bgp_toggle_update_dump
    log2bgp.Base.get_elem? log2bgp.Cli.Settings.kill_all_signal
connection_loop_roundtrip_example =
    connection_loop_roundtrip program_of (dumper_on ∷ kill_all ∷ []) daemon stopped
      (warning ∷ codes "% Sent: this->kill_all()" ∷ []) (refl, (refl, tt))
      (dumper_on-IsCommand, (kill_all-IsCommand, tt)) refl (omega arith, (omega arith, tt))

sinatra_api-Harmless_example :
    Harmless echo 7 (sinatra_api echo [] (23 ∷ codes "api-get prefix 10.0.0.1") 7)
sinatra_api-Harmless_example = sinatra_api-Harmless echo [] (23 ∷ codes "api-get prefix 10.0.0.1") 7

-- The query reaches the daemon.
sinatra_api_executes :
    sinatra_api echo [] (23 ∷ codes "api-get prefix 10.0.0.1") 7
    ≡ ok (codes "api-get prefix 10.0.0.1" ++ (7 ∷ []), 8)
unfolding sinatra_api
sinatra_api_executes = refl

-- A frame of 255 bytes with no 0 leaves no end of the text in the array.
full_frame_read_out_of_bounds :
    connection_loop echo 2 (255 ∷ replicate 255 120) 7 ≡ fault read_out_of_bounds
unfolding connection_loop
full_frame_read_out_of_bounds = refl

-- A call that is not one of the API is refused, and a line of spaces is read out of bounds.
sinatra_api_refuses :
    sinatra_api echo [] (12 ∷ codes "show version") 7 ≡ ok (codes "bgpd: illegal API call", 7)
unfolding sinatra_api
sinatra_api_refuses = refl

sinatra_api_blank_line : sinatra_api echo [] (3 ∷ codes "   ") 7 ≡ fault read_out_of_bounds
unfolding sinatra_api
sinatra_api_blank_line = refl
