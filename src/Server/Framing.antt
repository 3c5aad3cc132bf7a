-- ===== src/Server/Framing.antt =====
-- src/tcp_server.cpp: the commands that a client sends in frames, and the replies it reads.
use log2bgp.Base.{
  ℕ, zero, suc, ◌+◌, ◌*◌, ◌^◌, ◌<◌, ◌≡◌, refl, ap, ◌∙◌, false, List, [], ◌∷◌, ◌++◌, length, take,
  drop, drop_length, ◌==◌, arith, All, Result, ok, fault, ◌>>=◌,
}
use log2bgp.Server.{Executor, c_string, text_of, reply, answer_bytes, connection_loop}

-- A command that fits a frame and the array it is read into.
pub record IsCommand (text : List ℕ) : Type 0 where
  pub first : ℕ
  pub others : List ℕ
  pub bytes : text ≡ first ∷ others
  pub short : length text < 255
  pub no_nul : All (λ c. (c == 0) ≡ false) text

-- The frames of a client.
unfoldable pub requests : List (List ℕ) → List ℕ
requests [] = []
requests (c ∷ cs) = length c ∷ (c ++ requests cs)

-- The replies that a client reads: a length of four bytes, then as many bytes.
unfoldable pub received : ℕ → List ℕ → List (List ℕ)
received (suc n) (a ∷ b ∷ c ∷ d ∷ bytes) =
    let len = a * 2 ^ 24 + b * 2 ^ 16 + c * 2 ^ 8 + d in
    take len bytes ∷ received n (drop len bytes)
received _ _ = []

c_string_all : (t : List ℕ) → All (λ c. (c == 0) ≡ false) t → c_string t ≡ t
unfolding c_string
c_string_all [] h = refl
c_string_all (c ∷ t) (h, hs) = rw h (ap (◌∷◌ c) (c_string_all t hs))

text_of-IsCommand : (t : List ℕ) → IsCommand t → text_of t ≡ ok t
unfolding text_of
text_of-IsCommand t w = ground (arith, c_string_all t (w.no_nul), w.short)

take_length : (xs ys : List ℕ) → take (length xs) (xs ++ ys) ≡ xs
take_length [] ys = refl
take_length (x ∷ xs) ys = ap (◌∷◌ x) (take_length xs ys)

-- One reply at the front.
received-reply :
    (n : ℕ) (answer rest : List ℕ)
    → length answer < 2 ^ 32
    → received (suc n) (reply answer ++ rest) ≡ answer ∷ received n rest
unfolding received reply
received-reply n answer rest h =
    ap (λ k. take k (answer ++ rest) ∷ received n (drop k (answer ++ rest))) {y = length answer}
      (omega arith)
    ∙ ap (λ t. t ∷ received n (drop (length answer) (answer ++ rest))) (take_length answer rest)
    ∙ ap (λ t. answer ∷ received n t) (drop_length answer rest)

module _ {Daemon : Type 0} (daemon : Executor Daemon) where
  -- The commands one after the other, with no frames: the replies, and the daemon afterwards.
  unfoldable pub execute_all : List (List ℕ) → Daemon → Result (List (List ℕ) × Daemon)
  execute_all [] d = ok ([], d)
  execute_all (c ∷ cs) d = do
    (answer, d') ← daemon.execute c d
    (answers, d'') ← execute_all cs d'
    ok (answer ∷ answers, d'')

  -- The daemon does not stop before any of the commands.
  abbrev pub Then : (Daemon → Type 0) → Result (List ℕ × Daemon) → Type 0
  Then P (ok (a, d)) = P d
  Then P (fault e) = Unit

  unfoldable pub StaysOpen : List (List ℕ) → Daemon → Type 0
  StaysOpen [] d = Unit
  StaysOpen (c ∷ cs) d = (daemon.stop_and_exit d ≡ false) × Then (StaysOpen cs) (daemon.execute c d)

  unfoldable pub replies : List (List ℕ) → List ℕ
  replies [] = []
  replies (r ∷ rs) = reply r ++ replies rs

  framed : Result (List (List ℕ) × Daemon) → Result (List ℕ × Daemon)
  framed (ok (rs, d)) = ok (replies rs, d)
  framed (fault e) = fault e

  framed-cons :
      (a : List ℕ) (s : Result (List (List ℕ) × Daemon))
      → (framed s >>= λ x. ok (reply a ++ x.0, x.1)) ≡ framed (s >>= λ x. ok (a ∷ x.0, x.1))
  unfolding framed replies
  framed-cons a (ok (rs, d)) = refl
  framed-cons a (fault e) = refl

  -- The parts of a turn: the reply of a command, and what the later turns add.
  abbrev as_reply : List ℕ × Daemon → Result (List ℕ × Daemon)
  as_reply (a, d) = ok (reply a, d)

  abbrev after : (Daemon → Result (List ℕ × Daemon)) → List ℕ × Daemon → Result (List ℕ × Daemon)
  after loop (sent, d) = loop d >>= λ y. ok (sent ++ y.0, y.1)

  abbrev after_answer :
      (Daemon → Result (List (List ℕ) × Daemon)) → List ℕ × Daemon → Result (List (List ℕ) × Daemon)
  after_answer others (a, d) = others d >>= λ y. ok (a ∷ y.0, y.1)

  -- One turn, whatever the command does.
  framed-turn :
      (P : Daemon → Type 0) (r : Result (List ℕ × Daemon))
      (loop : Daemon → Result (List ℕ × Daemon)) (others : Daemon → Result (List (List ℕ) × Daemon))
      → ((d : Daemon) → P d → loop d ≡ framed (others d))
      → Then P r
      → ((r >>= as_reply) >>= after loop) ≡ framed (r >>= after_answer others)
  unfolding framed
  framed-turn P (fault e) loop others h k = refl
  framed-turn P (ok (a, d)) loop others h k =
      ap (λ s. s >>= λ y. ok (reply a ++ y.0, y.1)) (h d k) ∙ framed-cons a (others d)

  answer_bytes-IsCommand :
      (c : List ℕ) (d : Daemon)
      → IsCommand c
      → answer_bytes daemon c d ≡ (daemon.execute c d >>= as_reply)
  unfolding answer_bytes
  answer_bytes-IsCommand [] d w = absurd (ground (arith, w.bytes))
  answer_bytes-IsCommand (b ∷ c) d w =
      ap (λ r. r >>= λ text. daemon.execute text d >>= as_reply) (text_of-IsCommand (b ∷ c) w)

  connection_loop-requests :
      (fuel : ℕ) (cs : List (List ℕ)) (d : Daemon)
      → StaysOpen cs d
      → All IsCommand cs
      → length cs < fuel
      → connection_loop daemon fuel (requests cs) d ≡ framed (execute_all cs d)
  unfolding connection_loop requests framed execute_all replies StaysOpen
  connection_loop-requests zero cs d on h k = absurd (omega arith)
  connection_loop-requests (suc fuel) [] d on h k = refl
  connection_loop-requests (suc fuel) (c ∷ cs) d (on, later) (w, h) k =
      rw (on, connection_loop)
        (ap
            (λ t.
              answer_bytes daemon t d
              >>= after (connection_loop daemon fuel (drop (length c) (c ++ requests cs))))
            (take_length c (requests cs))
          ∙ ap (λ t. answer_bytes daemon c d >>= after (connection_loop daemon fuel t))
              (drop_length c (requests cs))
          ∙ ap (λ r. r >>= after (connection_loop daemon fuel (requests cs)))
              (answer_bytes-IsCommand c d w)
          ∙ framed-turn (StaysOpen cs) (daemon.execute c d)
              (connection_loop daemon fuel (requests cs)) (execute_all cs)
              (λ d' on'. connection_loop-requests fuel cs d' on' h (omega arith)) later)

  received-replies :
      (rs : List (List ℕ))
      → All (λ r. length r < 2 ^ 32) rs
      → received (length rs) (replies rs) ≡ rs
  unfolding replies received
  received-replies [] h = refl
  received-replies (r ∷ rs) (h, hs) =
      received-reply (length rs) r (replies rs) h ∙ ap (◌∷◌ r) (received-replies rs hs)

  -- A client sends commands in frames of a length and as many bytes, 1 to 254, none of them 0, and
  -- closes. Where the daemon is not stopped when it comes to any of them, the connection executes exactly these commands, in their
  -- order; and if none of them faults and no reply has 2^32 bytes, the client reads exactly the replies
  -- of the commands back from what is sent to it.
  pub connection_loop_roundtrip :
      (cs : List (List ℕ)) (d d' : Daemon) (rs : List (List ℕ))
      → StaysOpen cs d
      → All IsCommand cs
      → execute_all cs d ≡ ok (rs, d')
      → All (λ r. length r < 2 ^ 32) rs
      → (sent : List ℕ) × (connection_loop daemon (suc (length cs)) (requests cs) d ≡ ok (sent, d'))
        × (received (length rs) sent ≡ rs)
  unfolding framed
  connection_loop_roundtrip cs d d' rs on h e short = (
    replies rs,
    connection_loop-requests (suc (length cs)) cs d on h (omega arith) ∙ ap framed e,
    received-replies rs short,
  )
