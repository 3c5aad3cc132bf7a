-- ===== src/Session/Established/Agreement.antt =====
-- src/bgp.cpp and src/bgp_open.cpp: what holds of a peer while its session is up.
use log2bgp.Base.{
  ℕ, zero, suc, ◌/◌, ◌≡◌, refl, subst, sym, ap, ◌∙◌, Bool, true, false, not, ◌&&◌, Result, ok,
  fault, ◌>>=◌, Bool-cases, inl, inr, arith,
}
use log2bgp.Msg.{PeerState, MsgType}
use log2bgp.Tcp.{connected}
use log2bgp.Peer.{Peer}
use log2bgp.Bgp.{Bgp}
use log2bgp.Session.Send.{is_idle}
use log2bgp.Session.Open.{send_open, open_message}
use log2bgp.Session.Receive.{Turn, receive}
use log2bgp.Session.Established.{receive_loop}
use log2bgp.Session.Established.States.{
  Session, session, up_state, SessionStep, OnOk, OnOk-ok, receive-SessionStep, session-send_packet,
}

unfoldable pub is_up : PeerState → Bool
is_up PeerState.openconfirm = true
is_up PeerState.established = true
is_up _ = false

-- The AS is the configured one; a session that is up has the version of the daemon, and its
-- keepalive interval is a third of its hold time.
pub record Agreed (bgp : Bgp) (asn : ℕ) (s : Session) : Type 0 where
  pub same_asn : s.asn ≡ asn
  pub same_version : is_up s.state ≡ true → s.version ≡ bgp.version
  pub third : is_up s.state ≡ true → s.keep_alive ≡ s.hold_time / 3

not-up : {A : Type 0} (s t : PeerState) → s ≡ t → is_up t ≡ false → is_up s ≡ true → A
not-up s t e f h = ground (arith, ap is_up e)

SessionStep-Agreed :
    (bgp : Bgp) (asn : ℕ) (p q : Peer)
    → SessionStep bgp p q
    → Agreed bgp asn (session p)
    → Agreed bgp asn (session q)
unfolding session is_up up_state
SessionStep-Agreed bgp asn p q (SessionStep.kept e) a = subst (Agreed bgp asn) (sym e) a
SessionStep-Agreed bgp asn p q (SessionStep.refused s n c) a = record {
  same_asn = n ∙ a.same_asn;
  same_version = not-up q.state PeerState.idle s refl;
  third = not-up q.state PeerState.idle s refl;
}
SessionStep-Agreed bgp asn p q (SessionStep.opened s n v k) a = record {
  same_asn = n ∙ a.same_asn;
  same_version = λ _. v;
  third = λ _. k;
}
SessionStep-Agreed bgp asn p q (SessionStep.established s e) a =
    subst (Agreed bgp asn) (sym e) (record {
      same_asn = a.same_asn;
      same_version = λ _. a.same_version (ap is_up s);
      third = λ _. a.third (ap is_up s);
    })

OnOk-map : (P Q : Peer → Type 0) (r : Result Peer) → ((q : Peer) → P q → Q q) → OnOk P r → OnOk Q r
OnOk-map P Q (ok q) f h = f q h
OnOk-map P Q (fault e) f h = tt

OnOk-then :
    (P : Peer → Type 0) (r : Result Peer) (f : Peer → Result Peer)
    → OnOk (λ q. OnOk P (f q)) r
    → OnOk P (r >>= f)
OnOk-then P (ok q) f h = h
OnOk-then P (fault e) f h = tt

-- The condition of the loop, and the loop where it holds and where it does not.
unfoldable pub goes_on : Bgp → Peer → Bool
goes_on bgp p = connected p.tcp && not (is_idle p.state) && not bgp.stop_and_exit_instance

pub receive_loop-stop :
    (fuel : ℕ) (turns : ℕ → Turn) (bgp : Bgp) (p : Peer)
    → goes_on bgp p ≡ false
    → receive_loop (suc fuel) turns bgp p ≡ ok p
unfolding receive_loop goes_on
receive_loop-stop fuel turns bgp p e = ground arith

pub receive_loop-turn :
    (fuel : ℕ) (turns : ℕ → Turn) (bgp : Bgp) (p : Peer)
    → goes_on bgp p ≡ true
    → receive_loop (suc fuel) turns bgp p
      ≡ (receive (turns fuel) bgp p >>= receive_loop fuel turns bgp)
unfolding receive_loop goes_on
receive_loop-turn fuel turns bgp p e = ground arith

receive_loop-Agreed :
    (fuel : ℕ) (turns : ℕ → Turn) (bgp : Bgp) (asn : ℕ) (p : Peer)
    → Agreed bgp asn (session p)
    → OnOk (λ q. Agreed bgp asn (session q)) (receive_loop fuel turns bgp p)
unfolding receive_loop
receive_loop-Agreed zero turns bgp asn p a = tt
receive_loop-Agreed (suc fuel) turns bgp asn p a = elim (Bool-cases (goes_on bgp p)) [
  | inr e ↦ subst (OnOk _) (sym (receive_loop-stop fuel turns bgp p e)) a
  | inl e ↦ subst (OnOk _) (sym (receive_loop-turn fuel turns bgp p e)) (
      OnOk-then (λ q. Agreed bgp asn (session q)) (receive (turns fuel) bgp p)
        (receive_loop fuel turns bgp)
        (OnOk-map (SessionStep bgp p) _ (receive (turns fuel) bgp p)
          (λ q s. receive_loop-Agreed fuel turns bgp asn q (SessionStep-Agreed bgp asn p q s a))
          (receive-SessionStep (turns fuel) bgp p)))
]

send_open-Agreed :
    (now : ℕ) (bgp : Bgp) (p : Peer) → Agreed bgp p.asn (session (send_open now bgp p))
unfolding send_open session is_up
send_open-Agreed now bgp p = record {
  same_asn = ap (λ s. s.asn) (session-send_packet now (open_message bgp) MsgType.open_msg p);
  same_version = λ h. not-up PeerState.opensent PeerState.opensent refl refl h;
  third = λ h. not-up PeerState.opensent PeerState.opensent refl refl h;
}

-- After the OPEN of this side is sent, whatever the neighbor sends and however many turns the loop
-- takes: if it stops without a fault, the AS of the peer is the configured one, and if the session is
-- up, the neighbor has the version of the daemon and the keepalive interval is a third of the hold
-- time.
pub session_agreement :
    (fuel now : ℕ) (turns : ℕ → Turn) (bgp : Bgp) (p q : Peer)
    → receive_loop fuel turns bgp (send_open now bgp p) ≡ ok q
    → Agreed bgp p.asn (session q)
session_agreement fuel now turns bgp p q =
    OnOk-ok (λ r. Agreed bgp p.asn (session r)) _ q
      (receive_loop-Agreed fuel turns bgp p.asn (send_open now bgp p) (send_open-Agreed now bgp p))
