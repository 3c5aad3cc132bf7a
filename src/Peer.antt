-- ===== src/Peer.antt =====
-- include/bgp_peer.h and src/bgp_peer.cpp: the state of one neighbor. Times are seconds; the
-- counters are unsigned int, in_q is a uint16_t.
use log2bgp.Base.{ℕ, Bool, false, none, List, []}
use log2bgp.Base.Words.{pos, inc32}
use log2bgp.Msg.{PeerState, PathAttrib}
use log2bgp.Msg
use log2bgp.Tcp.{Tcp}

-- byte_tx_rx_current.
pub record ByteTxRxCurrent : Type 0 where
  pub tx : ℕ
  pub rx : ℕ

-- bytes_tx_rx.
pub record BytesTxRx : Type 0 where
  pub tx : ℕ
  pub rx : ℕ
  pub current : ByteTxRxCurrent
  pub last_rx : ℕ
  pub last_tx : ℕ
  pub withdrawn : ℕ

-- read_write.
pub record ReadWrite : Type 0 where
  pub last_read : ℕ
  pub last_write : ℕ

-- queue_data: `packet` is the first `length` bytes of the array of 4096.
pub record QueueData : Type 0 where
  pub length : ℕ
  pub packet : List ℕ

-- translate_attribs_base.
pub record TranslateAttrib : Type 0 where
  pub code : ℕ
  pub value : ℕ
  pub printable_attrib : List ℕ

-- The buffer sizes of tcp_client, none of them negative.
pub record Buffers : Type 0 where
  pub tcp_rx : ℕ
  pub tcp_tx : ℕ
  pub bgp_rx : ℕ
  pub bgp_tx : ℕ

-- DEFAULT_TCP_BUFFER_SIZE and DEFAULT_BGP_BUFFER_SIZE.
abbrev pub default_buffers : Buffers
default_buffers = record { tcp_rx = 14600; tcp_tx = 14600; bgp_rx = 4096; bgp_tx = 4096 }

pub record Peer : Type 0 where
  pub tcp : Tcp
  pub ipv4 : ℕ
  pub bgp_id : ℕ
  pub version : ℕ
  pub hold_time : ℕ
  pub keep_alive : ℕ
  pub asn : ℕ
  pub opt_param_len : ℕ
  pub in_q : ℕ
  pub up_since : ℕ
  pub p_ip : List ℕ
  pub b_ip : List ℕ
  pub opens : BytesTxRx
  pub notify : BytesTxRx
  pub update : BytesTxRx
  pub keepaliv : BytesTxRx
  pub routeref : BytesTxRx
  pub prefixes : BytesTxRx
  pub tx_rx : BytesTxRx
  pub implicit_withdraw : ByteTxRxCurrent
  pub explicit_withdraw : ByteTxRxCurrent
  pub state : PeerState
  pub last_io : ReadWrite
  pub addr_family : ℕ
  pub in_queue : List QueueData
  pub translate_attribs : List TranslateAttrib
  pub is_aliasing : Bool
  pub buffers : Buffers

abbrev pub zero_current : ByteTxRxCurrent
zero_current = record { tx = 0; rx = 0 }

abbrev pub zero_stats : BytesTxRx
zero_stats = record {
  tx = 0;
  rx = 0;
  current = zero_current;
  last_rx = 0;
  last_tx = 0;
  withdrawn = 0;
}

-- tcp_client().
abbrev pub new_tcp : Tcp
new_tcp = record { tcp_socket = pos 0; rx = none; tx = none; wire = [] }

-- bgp_peer().
abbrev pub new_peer : Peer
new_peer = record {
  tcp = new_tcp;
  ipv4 = 0;
  bgp_id = 0;
  version = 4;
  hold_time = 180;
  keep_alive = 60;
  asn = 0;
  opt_param_len = 0;
  in_q = 0;
  up_since = 0;
  p_ip = [];
  b_ip = [];
  opens = zero_stats;
  notify = zero_stats;
  update = zero_stats;
  keepaliv = zero_stats;
  routeref = zero_stats;
  prefixes = zero_stats;
  tx_rx = zero_stats;
  implicit_withdraw = zero_current;
  explicit_withdraw = zero_current;
  state = Msg.idle;
  last_io = record { last_read = 0; last_write = 0 };
  addr_family = 0;
  in_queue = [];
  translate_attribs = [];
  is_aliasing = false;
  buffers = default_buffers;
}

-- bgp_peer(const bgp_peer &): a peer copied from the one that the command line filled in.
unfoldable pub copy_peer : Peer → Peer
copy_peer orig = record new_peer {
  asn = orig.asn;
  addr_family = orig.addr_family;
  p_ip = orig.p_ip;
}

-- A message sent: `++x.tx; x.last_tx = now`.
unfoldable pub count_tx : ℕ → BytesTxRx → BytesTxRx
count_tx now b = record b { tx = inc32 b.tx; last_tx = now }

-- A message received: `x.rx++; x.last_rx = now`.
unfoldable pub count_rx : ℕ → BytesTxRx → BytesTxRx
count_rx now b = record b { rx = inc32 b.rx; last_rx = now }
