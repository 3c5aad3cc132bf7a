-- ===== src/Tcp.antt =====
-- src/tcp_client.cpp: the connection of a peer as its two stdio streams. The whole input that the
-- remote side will send before it closes is `pending`; reading past it sets the end-of-file flag.
-- Bytes written stay in `tx` until they are flushed to `wire`. The end-of-file flag of an output
-- stream is never set, and output never fails while the stream is open.
use log2bgp.Base.{
  ℕ, ◌%◌, Bool, true, false, not, ◌&&◌, Option, none, some, List, [], ◌∷◌, ◌++◌, length, take, drop,
  ltb, if◌then◌else◌,
}
use log2bgp.Base.Words.{ℤ, pos, negsuc}

pub record RxStream : Type 0 where
  pub pending : List ℕ
  pub eof : Bool

pub record Tcp : Type 0 where
  pub tcp_socket : ℤ
  pub rx : Option RxStream
  pub tx : Option (List ℕ)
  pub wire : List ℕ

positive : ℤ → Bool
positive (pos n) = ltb 0 n
positive (negsuc n) = false

-- rx is open and not at its end.
readable : Option RxStream → Bool
readable none = false
readable (some r) = not r.eof

writable : Option (List ℕ) → Bool
writable none = false
writable (some b) = true

-- connected().
unfoldable pub connected : Tcp → Bool
unfolding readable writable positive
connected t = readable t.rx && writable t.tx && positive t.tcp_socket

-- disconnect(): the descriptor is closed first, so what is not flushed is lost.
unfoldable pub disconnect : Tcp → Tcp
disconnect t = record t { rx = none; tx = none }

-- fread(data, 1, count, rx).
fread : ℕ → RxStream → List ℕ × RxStream
fread count r = (
  take count r.pending,
  record { pending = drop count r.pending; eof = ltb (length r.pending) count },
)

read_stream : ℕ → Tcp → Option RxStream → Option (List ℕ) × Tcp
unfolding fread
read_stream count t none = (none, t)
read_stream count t (some r) =
    let (got, r') = fread count r in (some got, record t { rx = some r' })

-- read(data, 1, count): the bytes read, or `none` for the result -1.
unfoldable pub read : ℕ → Tcp → Option (List ℕ) × Tcp
unfolding read_stream connected
read count t = if connected t then read_stream count t t.rx else (none, t)

append_buffer : List ℕ → Option (List ℕ) → Option (List ℕ)
append_buffer bytes none = none
append_buffer bytes (some b) = some (b ++ bytes)

-- write(data, 1, length data); with no connection nothing is written.
unfoldable pub write : List ℕ → Tcp → Tcp
unfolding append_buffer connected
write bytes t = if connected t then record t { tx = append_buffer bytes t.tx } else t

-- write_formated("%c%c", a, b): a char keeps the low eight bits.
unfoldable pub write_formated : ℕ → ℕ → Tcp → Tcp
unfolding write
write_formated a b t = write ((a % 256) ∷ (b % 256) ∷ []) t

flush_buffer : Option (List ℕ) → Tcp → Tcp
flush_buffer none t = t
flush_buffer (some b) t = record t { tx = some []; wire = t.wire ++ b }

-- tx_flush().
unfoldable pub tx_flush : Tcp → Tcp
unfolding flush_buffer
tx_flush t = flush_buffer t.tx t
