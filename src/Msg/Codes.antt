-- ===== src/Msg/Codes.antt =====
-- include/bgp_msg.h: the code enumerations, and the bytes that stand for them on the wire.
use log2bgp.Base.{ℕ, ◌==◌, if◌then◌else◌}

-- bgp_msg_type, with the bytes that a cast makes of an unknown code.
pub data MsgType : Type 0 where
  open_msg update notification keepalive routerefresh : MsgType
  unknown : ℕ → MsgType

unfoldable pub msg_type : ℕ → MsgType
msg_type b =
    if b == 1
    then open_msg
    else if b == 2
    then update
    else if b == 3
    then notification
    else if b == 4
    then keepalive
    else if b == 5
    then routerefresh
    else unknown b

unfoldable pub msg_code : MsgType → ℕ
msg_code open_msg = 0x01
msg_code update = 0x02
msg_code notification = 0x03
msg_code keepalive = 0x04
msg_code routerefresh = 0x05
msg_code (unknown b) = b

-- bgp_path_attrib. `bgp_id`, 0x00, is for the program's own use and never read off the wire: a
-- byte 0 is an `other` code, which takes the same branch.
pub data PathAttrib : Type 0 where
  origin as_path next_hop multi_exit_disc local_pref atomic_aggregate aggregator : PathAttrib
  community originator cluster_list mp_reach_nlri mp_unreach_nlri as4_path : PathAttrib
  as4_aggregator : PathAttrib
  other : ℕ → PathAttrib

-- The enumerator that a byte names; any other byte takes the default branch of a switch.
unfoldable pub path_attrib : ℕ → PathAttrib
path_attrib b =
    if b == 0x01
    then origin
    else if b == 0x02
    then as_path
    else if b == 0x03
    then next_hop
    else if b == 0x04
    then multi_exit_disc
    else if b == 0x05
    then local_pref
    else if b == 0x06
    then atomic_aggregate
    else if b == 0x07
    then aggregator
    else if b == 0x08
    then community
    else if b == 0x09
    then originator
    else if b == 0x0A
    then cluster_list
    else if b == 0x0E
    then mp_reach_nlri
    else if b == 0x0F
    then mp_unreach_nlri
    else if b == 0x11
    then as4_path
    else if b == 0x12
    then as4_aggregator
    else other b

unfoldable pub attrib_code : PathAttrib → ℕ
attrib_code origin = 0x01
attrib_code as_path = 0x02
attrib_code next_hop = 0x03
attrib_code multi_exit_disc = 0x04
attrib_code local_pref = 0x05
attrib_code atomic_aggregate = 0x06
attrib_code aggregator = 0x07
attrib_code community = 0x08
attrib_code originator = 0x09
attrib_code cluster_list = 0x0A
attrib_code mp_reach_nlri = 0x0E
attrib_code mp_unreach_nlri = 0x0F
attrib_code as4_path = 0x11
attrib_code as4_aggregator = 0x12
attrib_code (other b) = b

-- bgp_peer_state.
pub data PeerState : Type 0 where
  idle connect active opensent openconfirm established deleted clearing : PeerState

-- bgp_error_code.
pub data ErrorCode : Type 0 where
  msg_head_err open_msg_err update_msg_err hold_time_expired finite_state_mach_err : ErrorCode
  cease : ErrorCode

unfoldable pub error_code : ErrorCode → ℕ
error_code msg_head_err = 0x01
error_code open_msg_err = 0x02
error_code update_msg_err = 0x03
error_code hold_time_expired = 0x04
error_code finite_state_mach_err = 0x05
error_code cease = 0x06

-- bgp_error_subcode.
pub data ErrorSubcode : Type 0 where
  no_subcode connection_not_sync bad_msg_len bad_msg_type : ErrorSubcode

unfoldable pub error_subcode : ErrorSubcode → ℕ
error_subcode no_subcode = 0x00
error_subcode connection_not_sync = 0x01
error_subcode bad_msg_len = 0x02
error_subcode bad_msg_type = 0x03

-- bgp_open_error_subcode.
pub data OpenErrorSubcode : Type 0 where
  unsup_ver_num bad_peer_as bad_bgp_id unsup_opt_param unacpt_hold_time unsup_cap : OpenErrorSubcode

unfoldable pub open_error_subcode : OpenErrorSubcode → ℕ
open_error_subcode unsup_ver_num = 0x01
open_error_subcode bad_peer_as = 0x02
open_error_subcode bad_bgp_id = 0x03
open_error_subcode unsup_opt_param = 0x04
open_error_subcode unacpt_hold_time = 0x06
open_error_subcode unsup_cap = 0x07
