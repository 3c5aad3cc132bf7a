-- ===== src/Session.antt =====
-- src/bgp.cpp, bgp_send.cpp, bgp_open.cpp, bgp_notification.cpp: the session with one neighbor.
pub mod Send
pub mod Open
pub mod Timer
pub mod Start
pub mod Receive
pub mod Established
pub mod Handshake
pub mod Expiry
pub mod Lifetime
