-- ===== src/Session/Send/Wire.antt =====
-- What send_packet puts on the wire (src/bgp_send.cpp).
use log2bgp.Base.{
  ℕ, suc, ◌/◌, ◌%◌, ◌^◌, ◌<◌, ◌≡◌, refl, false, some, List, [], ◌∷◌, ◌++◌, replicate, arith,
}
use log2bgp.Base.Words.{pos}
use log2bgp.Msg.{MsgType, msg_code}
use log2bgp.Tcp.{Tcp, connected, write, write_formated, tx_flush}
use log2bgp.Session.Send.{header_len, transmit}

-- The bytes of a message: the marker, the big-endian length, the type and the payload.
unfoldable pub message : List ℕ → MsgType → List ℕ
unfolding header_len
message payload t =
    replicate 16 0xFF
    ++ (header_len payload / 2 ^ 8 ∷ header_len payload % 256 ∷ msg_code t ∷ payload)

-- A connection that is up: both streams open, the input not at its end.
abbrev pub up : ℕ → List ℕ → List ℕ → List ℕ → Tcp
up fd pending buffer wire = record {
  tcp_socket = pos (suc fd);
  rx = some (record { pending = pending; eof = false });
  tx = some buffer;
  wire = wire;
}

write-up :
    (bytes : List ℕ) (fd : ℕ) (pending buffer wire : List ℕ)
    → write bytes (up fd pending buffer wire) ≡ up fd pending (buffer ++ bytes) wire
unfolding write connected
write-up bytes fd pending buffer wire = ground arith

flush-up :
    (fd : ℕ) (pending buffer wire : List ℕ)
    → tx_flush (up fd pending buffer wire) ≡ up fd pending [] (wire ++ buffer)
unfolding tx_flush
flush-up fd pending buffer wire = ground arith

byte-mod : (a : ℕ) → a < 256 → a % 256 ≡ a
byte-mod a h = omega arith

write_formated-up :
    (a fd : ℕ) (pending buffer wire : List ℕ)
    → a < 2 ^ 16
    → write_formated (a / 2 ^ 8) (a % 256) (up fd pending buffer wire)
      ≡ up fd pending (buffer ++ (a / 2 ^ 8 ∷ a % 256 ∷ [])) wire
unfolding write_formated
write_formated-up a fd pending buffer wire h =
    rw (byte-mod (a / 2 ^ 8) (omega arith), byte-mod (a % 256) (omega arith))
      (write-up (a / 2 ^ 8 ∷ a % 256 ∷ []) fd pending buffer wire)

header_len-lt : (payload : List ℕ) → header_len payload < 2 ^ 16
unfolding header_len
header_len-lt payload = omega arith

pub transmit-up :
    (payload : List ℕ) (t : MsgType) (fd : ℕ) (pending wire : List ℕ)
    → transmit payload t (up fd pending [] wire) ≡ up fd pending [] (wire ++ message payload t)
unfolding transmit message header_len
transmit-up payload t fd pending wire =
    let h = header_len payload in
    let m : List ℕ = replicate 16 0xFF in
    let l : List ℕ = h / 2 ^ 8 ∷ h % 256 ∷ [] in
    rw
      (
        write-up m fd pending [] wire,
        write_formated-up h fd pending m wire (header_len-lt payload),
        write-up (msg_code t ∷ []) fd pending (m ++ l) wire,
        write-up payload fd pending (m ++ l ++ (msg_code t ∷ [])) wire,
        flush-up fd pending (m ++ l ++ (msg_code t ∷ []) ++ payload) wire,
      )
      refl
