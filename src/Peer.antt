-- ===== src/Peer.antt =====
-- src/apprtc_peer_connection.h and src/apprtc_peer_connection.cc.
pub mod Api
pub mod Rtc
pub mod State
pub mod Setup
pub mod Candidates
pub mod Negotiation
pub mod Events
pub mod Client
pub mod Laws
pub mod Contract
pub mod Calls
pub mod Stats
