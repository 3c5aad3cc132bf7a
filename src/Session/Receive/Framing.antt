-- ===== src/Session/Receive/Framing.antt =====
-- src/bgp.cpp and src/bgp_send.cpp: a message that is sent is the message that is received.
use log2bgp.Base.{
  ℕ, ◌+◌, ◌*◌, ◌/◌, ◌%◌, ◌^◌, ◌<◌, ◌≡◌, refl, sym, ap, ◌∙◌, true, false, some, List, [], ◌∷◌, ◌++◌,
  length, take, replicate, leb, drop_length, arith, ◌≤◌, ==_refl, get_elem?, length-append,
}
use log2bgp.Msg.{MsgType, msg_code, msg_type}
use log2bgp.Tcp.{Tcp, connected, read}
use log2bgp.Peer.{Peer}
use log2bgp.Bgp.{Bgp}
use log2bgp.Decode.Buffer.{byte_at}
use log2bgp.Session.Send.{
  header_len, transmit, send_packet, send_and_count, count_sent, is_idle, is_update,
}
use log2bgp.Session.Send.Wire.{message, up, transmit-up}
use log2bgp.Session.Receive.{
  Turn, dispatch, body_read, receive_body, receive_header, header_read, receive, payload_count,
  read_count, read_bytes,
}

take_length : (xs ys : List ℕ) → take (length xs) (xs ++ ys) ≡ xs
take_length [] ys = refl
take_length (x ∷ xs) ys = ap (◌∷◌ x) (take_length xs ys)

-- The read of a stream that holds what is asked for and more.
read-up :
    (bytes rest buffer wire : List ℕ) (fd : ℕ)
    → read (length bytes) (up fd (bytes ++ rest) buffer wire) ≡ (some bytes, up fd rest buffer wire)
unfolding read connected
read-up bytes rest buffer wire fd =
    ground (arith, take_length bytes rest, drop_length bytes rest, length-append bytes rest)

payload_count-header_len :
    (payload : List ℕ)
    → length payload + 19 < 2 ^ 16
    → payload_count (header_len payload) ≡ length payload
unfolding payload_count header_len
payload_count-header_len payload h = ground arith

pub le→leb : (a b : ℕ) → a ≤ b → leb a b ≡ true
le→leb a b h = ground arith

body_read-full :
    (t : Turn) (bgp : Bgp) (mt : MsgType) (len : ℕ) (body : List ℕ) (tcp : Tcp) (p : Peer)
    → length body ≡ payload_count len
    → length body ≤ len
    → body_read t bgp len mt p (some body, tcp) ≡ dispatch t bgp mt body (record p { tcp = tcp })
unfolding body_read read_count read_bytes
body_read-full t bgp mt len body tcp p h k =
    rw (le→leb (length body) len k, h, ==_refl (payload_count len)) refl

receive_body-read :
    (t : Turn) (bgp : Bgp) (mt : MsgType) (len : ℕ) (body : List ℕ) (tcp : Tcp) (p : Peer)
    → read (payload_count len) p.tcp ≡ (some body, tcp)
    → length body ≡ payload_count len
    → length body ≤ len
    → receive_body t bgp len mt p ≡ dispatch t bgp mt body (record p { tcp = tcp })
unfolding receive_body
receive_body-read t bgp mt len body tcp p e h k =
    ap (body_read t bgp len mt p) e ∙ body_read-full t bgp mt len body tcp p h k

receive_body-payload :
    (t : Turn) (bgp : Bgp) (mt : MsgType) (payload rest buffer wire : List ℕ) (fd : ℕ) (p : Peer)
    → length payload + 19 < 2 ^ 16
    → p.tcp ≡ up fd (payload ++ rest) buffer wire
    → receive_body t bgp (header_len payload) mt p
      ≡ dispatch t bgp mt payload (record p { tcp = up fd rest buffer wire })
unfolding header_len
receive_body-payload t bgp mt payload rest buffer wire fd p h e =
    let c = payload_count-header_len payload h in
    receive_body-read t bgp mt (header_len payload) payload (up fd rest buffer wire) p
      (rw (e, c) (read-up payload rest buffer wire fd)) (sym c) (omega arith)

header_read-full :
    (t : Turn) (bgp : Bgp) (head : List ℕ) (tcp : Tcp) (p : Peer)
    → length head ≡ 19
    → header_read t bgp p (some head, tcp)
      ≡ receive_header t bgp head
          (record p { tcp = tcp; last_io = record p.last_io { last_read = t.now } })
unfolding header_read read_count read_bytes
header_read-full t bgp head tcp p h = rw (header_read, h) refl

receive-read :
    (t : Turn) (bgp : Bgp) (head : List ℕ) (tcp : Tcp) (p : Peer)
    → read 19 p.tcp ≡ (some head, tcp)
    → length head ≡ 19
    → receive t bgp p
      ≡ receive_header t bgp head
          (record p { tcp = tcp; last_io = record p.last_io { last_read = t.now } })
unfolding receive
receive-read t bgp head tcp p e h = ap (header_read t bgp p) e ∙ header_read-full t bgp head tcp p h

head : List ℕ → MsgType → List ℕ
head payload mt =
    replicate 16 0xFF ++ (header_len payload / 2 ^ 8 ∷ header_len payload % 256 ∷ msg_code mt ∷ [])

join : (n : ℕ) → n / 2 ^ 8 * 2 ^ 8 + n % 256 ≡ n
join n = omega arith

receive_header-head :
    (t : Turn) (bgp : Bgp) (payload : List ℕ) (mt : MsgType) (p : Peer)
    → msg_type (msg_code mt) ≡ mt
    → receive_header t bgp (head payload mt) p ≡ receive_body t bgp (header_len payload) mt p
unfolding receive_header head byte_at get_elem?
receive_header-head t bgp payload mt p k =
    ap (λ n. receive_body t bgp n (msg_type (msg_code mt)) p) (join (header_len payload))
    ∙ ap (λ m. receive_body t bgp (header_len payload) m p) k

pub receive-message :
    (t : Turn) (bgp : Bgp) (mt : MsgType) (payload rest buffer wire : List ℕ) (fd : ℕ) (p : Peer)
    → length payload + 19 < 2 ^ 16
    → msg_type (msg_code mt) ≡ mt
    → p.tcp ≡ up fd (message payload mt ++ rest) buffer wire
    → receive t bgp p
      ≡ dispatch t bgp mt payload (record p {
        tcp = up fd rest buffer wire;
        last_io = record p.last_io { last_read = t.now };
      })
unfolding head message
receive-message t bgp mt payload rest buffer wire fd p h k e =
    receive-read t bgp (head payload mt) (up fd (payload ++ rest) buffer wire) p
      (rw e (read-up (head payload mt) (payload ++ rest) buffer wire fd)) refl
    ∙ receive_header-head t bgp payload mt _ k
    ∙ receive_body-payload t bgp mt payload rest buffer wire fd
        (record p {
          tcp = up fd (payload ++ rest) buffer wire;
          last_io = record p.last_io { last_read = t.now };
        })
        h refl

pub send_packet-tcp :
    (now : ℕ) (payload : List ℕ) (mt : MsgType) (q : Peer)
    → is_idle q.state ≡ false
    → is_update mt ≡ false
    → (send_packet now payload mt q).tcp ≡ transmit payload mt q.tcp
unfolding send_packet is_update send_and_count count_sent
send_packet-tcp now payload MsgType.open_msg q h k = rw h refl
send_packet-tcp now payload MsgType.update q h k = ground arith
send_packet-tcp now payload MsgType.notification q h k = rw h refl
send_packet-tcp now payload MsgType.keepalive q h k = rw h refl
send_packet-tcp now payload MsgType.routerefresh q h k = rw h refl
send_packet-tcp now payload (MsgType.unknown b) q h k = rw h refl

-- What a peer that is not idle sends on a fresh connection, a message that is no UPDATE and fits a
-- length of 16 bits, is what a peer that reads it handles: the same type, the same payload, with
-- the rest of the input unread.
pub receive-send_packet :
    (t : Turn) (bgp : Bgp) (now : ℕ) (mt : MsgType) (payload pending rest buffer wire : List ℕ)
    (fd fd' : ℕ) (q p : Peer)
    → is_idle q.state ≡ false
    → is_update mt ≡ false
    → msg_type (msg_code mt) ≡ mt
    → length payload + 19 < 2 ^ 16
    → q.tcp ≡ up fd' pending [] []
    → p.tcp ≡ up fd ((send_packet now payload mt q).tcp.wire ++ rest) buffer wire
    → receive t bgp p
      ≡ dispatch t bgp mt payload (record p {
        tcp = up fd rest buffer wire;
        last_io = record p.last_io { last_read = t.now };
      })
receive-send_packet t bgp now mt payload pending rest buffer wire fd fd' q p i u k h e f =
    receive-message t bgp mt payload rest buffer wire fd p h k (
      f
      ∙ ap (λ tcp. up fd (tcp.wire ++ rest) buffer wire)
          (send_packet-tcp now payload mt q i u
            ∙ ap (transmit payload mt) e
            ∙ transmit-up payload mt fd' pending []))
