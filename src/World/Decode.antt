-- ===== src/World/Decode.antt =====
-- src/bgp_update.cpp: decoding the packets of a peer, and the queues it fills.
use log2bgp.Base.{ℕ, ◌+◌, ◌^◌, ◌≤◌, ◌<◌, ◌≡◌, refl, false, List, ◌==◌, ok, arith}
use log2bgp.Msg.{Update, assign}
use log2bgp.Bgp.{Bgp, NlriParse}
use log2bgp.Decode.Buffer.{copy_u32}
use log2bgp.Decode.Nlri.{byte_length, new_nlri, push}
use log2bgp.World.Yields.{Yields-ok}
use log2bgp.World.Bytes.{Bytes, All-append, Copied, copy_u32-Copied}
use log2bgp.World.Sound.{IsRouted, Sound}

push-Sound :
    (flag : NlriParse) (u : Update) (b : Bgp)
    → IsRouted (assign u)
    → Sound b
    → Sound (push flag u b)
unfolding push
push-Sound NlriParse.update u b r w = record {
  table = w.table;
  updates = All-append IsRouted b.adj_rib_in_q _ w.updates (r, tt);
  withdrawals = w.withdrawals;
}
push-Sound NlriParse.withdraw u b r w = record {
  table = w.table;
  updates = w.updates;
  withdrawals = All-append IsRouted b.adj_rib_in_wdraw_q _ w.withdrawals (r, tt);
}

byte_length-short : (n : ℕ) → byte_length n ≤ 4 → n ≤ 32
unfolding byte_length
byte_length-short n h = ground arith

new_update-IsRouted :
    (flag : NlriParse) (now bgp_id n prefix : ℕ) (u : Update)
    → bgp_id < 2 ^ 32
    → (n == 0) ≡ false
    → Copied (byte_length n) prefix
    → IsRouted (assign (record u { nlri = new_nlri flag now bgp_id n prefix }))
unfolding assign
new_update-IsRouted flag now bgp_id n prefix u i z c = record {
  flag = flag;
  now = now;
  bgp_id = bgp_id;
  prefix_length = n;
  prefix = prefix;
  made = refl;
  positive = ground (arith, z);
  short = byte_length-short n c.1;
  prefix_fits = c.0;
  id_fits = i;
}

-- One prefix of a message.
pub pushes-Sound :
    (flag : NlriParse) (now bgp_id : ℕ) (packet : List ℕ) (offset n prefix : ℕ) (u : Update)
    (b : Bgp)
    → bgp_id < 2 ^ 32
    → Bytes packet
    → (n == 0) ≡ false
    → copy_u32 0 packet (offset + 1) (byte_length n) ≡ ok prefix
    → Sound b
    → Sound (push flag (record u { nlri = new_nlri flag now bgp_id n prefix }) b)
pushes-Sound flag now bgp_id packet offset n prefix u b i k z e w =
    push-Sound flag _ b
      (new_update-IsRouted flag now bgp_id n prefix u i z (
        Yields-ok (Copied (byte_length n)) (copy_u32 0 packet (offset + 1) (byte_length n)) prefix
          (copy_u32-Copied packet (offset + 1) (byte_length n) k) e))
      w
