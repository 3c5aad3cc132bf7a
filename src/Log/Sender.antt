-- ===== src/Log/Sender.antt =====
-- include/udp_sender.h: a sender of datagrams. What inet_aton reads and socket() returns is given. The
-- counter of the datagrams is taken to fit its int.
use log2bgp.Base.{ℕ, ◌+◌, ◌*◌, ◌/◌, ◌%◌, ◌^◌, Option, none, some, List, [], ◌++◌}
use log2bgp.Base.Text.{codes, decimal}
use log2bgp.Base.Words.{ℤ, pos, negsuc}

-- htons on a little-endian host.
unfoldable pub htons : ℕ → ℕ
htons n = n % 2 ^ 8 * 2 ^ 8 + n / 2 ^ 8 % 2 ^ 8

-- udp_sender, with the port and the address of its sockaddr_in.
pub record UdpSender : Type 0 where
  pub ipv4 : ℕ
  pub port : ℕ
  pub host : List ℕ
  pub socket : ℤ
  pub sequence : ℕ
  pub sin_port : ℕ
  pub sin_addr : ℕ

abbrev pub udp_sender : UdpSender
udp_sender = record {
  ipv4 = 0;
  port = 0;
  host = [];
  socket = pos 0;
  sequence = 1000;
  sin_port = 0;
  sin_addr = 0;
}

-- udp_sender::operator(): without a socket the destination stays, and so does the address 0 where the
-- host is no address.
unfoldable pub configure : (List ℕ → Option ℕ) → ℤ → ℕ → List ℕ → ℕ → UdpSender → UdpSender
unfolding htons
configure inet_aton (negsuc n) ipv4 host port s = record s {
  ipv4 = ipv4;
  port = port;
  host = host;
  socket = negsuc n;
}
configure inet_aton (pos n) ipv4 host port s = record s {
  ipv4 = ipv4;
  port = port;
  host = host;
  socket = pos n;
  sin_port = htons port;
  sin_addr = elim (inet_aton host) [ none ↦ 0 | some a ↦ a ];
}

-- What sendto is given.
pub record Datagram : Type 0 where
  pub socket : ℤ
  pub sin_port : ℕ
  pub sin_addr : ℕ
  pub payload : List ℕ

-- udp_sender::write, LOG_LOCAL7 | LOG_NOTICE being 189: the datagram, and the sender with its counter.
unfoldable pub packet : ℕ → List ℕ → List ℕ
packet sequence text = codes "<189>" ++ (decimal sequence ++ (codes ":" ++ text))

unfoldable pub write : List ℕ → UdpSender → Datagram × UdpSender
unfolding packet
write text s = (
  record {
    socket = s.socket;
    sin_port = s.sin_port;
    sin_addr = s.sin_addr;
    payload = packet (s.sequence + 1) text;
  },
  record s { sequence = s.sequence + 1 },
)
