-- ===== src/Decode/Nlri/Turn.antt =====
-- src/bgp_update.cpp: one turn of the loop of parse_nlri.
use log2bgp.Base.{ℕ, suc, ◌+◌, ◌≡◌, ◌≢◌, false, some, List, get_elem?, ◌==◌, arith, ok}
use log2bgp.Msg.{Update}
use log2bgp.Bgp.{Bgp, NlriParse}
use log2bgp.Decode.Buffer.{byte_at, copy_u32}
use log2bgp.Decode.Nlri.{byte_length, new_nlri, push, parse_nlri}

==-ne : (a b : ℕ) → a ≢ b → (a == b) ≡ false
==-ne a b h = ground arith

-- One turn of the loop.
pub parse_nlri-turn :
    (fuel i now bgp_id len prefix : ℕ) (flag : NlriParse) (p : List ℕ) (u : Update) (b : Bgp)
    → get_elem? p i ≡ some len
    → len ≢ 0
    → copy_u32 0 p (i + 1) (byte_length len) ≡ ok prefix
    → parse_nlri (suc fuel) flag now bgp_id p i u b
      ≡ parse_nlri fuel flag now bgp_id p
          (i + 1 + byte_length len)
          (record u { nlri = new_nlri flag now bgp_id len prefix })
          (push flag (record u { nlri = new_nlri flag now bgp_id len prefix }) b)
unfolding parse_nlri byte_at
parse_nlri-turn fuel i now bgp_id len prefix flag p u b h k c = ground (arith, ==-ne len 0 k)

-- A zero byte ends the loop.
pub parse_nlri-end :
    (fuel i now bgp_id : ℕ) (flag : NlriParse) (p : List ℕ) (u : Update) (b : Bgp)
    → get_elem? p i ≡ some 0
    → parse_nlri (suc fuel) flag now bgp_id p i u b ≡ ok b
unfolding parse_nlri byte_at
parse_nlri-end fuel i now bgp_id flag p u b h = ground arith
