-- ===== src/Session/Handshake.antt =====
-- src/bgp_open.cpp: the OPEN that one daemon sends, decoded by another.
use log2bgp.Base.{
  ℕ, ◌/◌, ◌^◌, ◌<◌, ◌≡◌, refl, ap, true, Option, some, List, [], ◌++◌, ◌==◌, arith, ok, get_elem?,
}
use log2bgp.Msg.{MsgType, PeerState}
use log2bgp.Peer.{Peer}
use log2bgp.Bgp.{Bgp}
use log2bgp.Decode.Buffer.{byte_at}
use log2bgp.Session.Open.{
  OpenHeader, open_message, open_header, confirm_open, accept_open, decode_open,
}
use log2bgp.Session.Established.States.{session, session-send_packet}

-- The fields that an OPEN carries fit their widths, and the hold time one byte.
pub record IsEncodable (bgp : Bgp) : Type 0 where
  pub version_fits : bgp.version < 2 ^ 8
  pub asn_fits : bgp.asn < 2 ^ 16
  pub hold_time_fits : bgp.hold_time < 2 ^ 8
  pub bgp_id_fits : bgp.bgp_id < 2 ^ 32

header_of : Bgp → OpenHeader
header_of n = record {
  version = n.version;
  asn = n.asn;
  hold_time = n.hold_time;
  bgp_id = n.bgp_id;
  opt_param_len = 0;
}

open_header-open_message :
    (n : Bgp) (rest : List ℕ)
    → IsEncodable n
    → open_header (open_message n ++ rest) ≡ ok (header_of n)
unfolding open_header open_message header_of byte_at get_elem?
open_header-open_message n rest w =
    ground (arith, w.version_fits, w.asn_fits, w.hold_time_fits, w.bgp_id_fits)

eq-== : (m n : ℕ) → m ≡ n → (m == n) ≡ true
eq-== m n e = ground arith

accept_open-same :
    (now : ℕ) (inet_ntoa : ℕ → Option (List ℕ)) (bgp : Bgp) (h : OpenHeader) (b_ip : List ℕ)
    (p : Peer)
    → h.version ≡ bgp.version
    → h.asn ≡ p.asn
    → inet_ntoa h.bgp_id ≡ some b_ip
    → accept_open now inet_ntoa bgp h p
      ≡ confirm_open now h b_ip (record p { version = h.version; asn = h.asn })
unfolding accept_open
accept_open-same now inet_ntoa bgp h b_ip p v a i =
    rw (eq-== h.version bgp.version v, eq-== h.asn p.asn a, i, accept_open) refl

confirm_open-fields :
    (now : ℕ) (h : OpenHeader) (b_ip : List ℕ) (p : Peer)
    → session (confirm_open now h b_ip p) ≡ record {
      state = PeerState.openconfirm;
      asn = p.asn;
      version = p.version;
      hold_time = h.hold_time;
      keep_alive = h.hold_time / 3;
    }
unfolding confirm_open session
confirm_open-fields now h b_ip p = session-send_packet now [] MsgType.keepalive _

-- The OPEN of a daemon `n`, whose hold time is less than 256, is accepted by a daemon of the same
-- version that is configured with the AS of `n` and can print the identifier of `n`: the session
-- is in openconfirm, with the hold time of `n` and a third of it for keepalives.
pub decode_open-open_message :
    (now : ℕ) (inet_ntoa : ℕ → Option (List ℕ)) (bgp n : Bgp) (rest b_ip : List ℕ) (p : Peer)
    → IsEncodable n
    → n.version ≡ bgp.version
    → n.asn ≡ p.asn
    → inet_ntoa n.bgp_id ≡ some b_ip
    → (q : Peer) × (decode_open now inet_ntoa bgp (open_message n ++ rest) p ≡ ok q)
      × (session q ≡ record {
        state = PeerState.openconfirm;
        asn = n.asn;
        version = n.version;
        hold_time = n.hold_time;
        keep_alive = n.hold_time / 3;
      })
unfolding decode_open header_of
decode_open-open_message now inet_ntoa bgp n rest b_ip p w v a i =
    let r = record p { version = n.version; asn = n.asn } in
    (
      confirm_open now (header_of n) b_ip r,
      rw (open_header-open_message n rest w)
          (ap ok (accept_open-same now inet_ntoa bgp (header_of n) b_ip p v a i)),
      confirm_open-fields now (header_of n) b_ip r,
    )
