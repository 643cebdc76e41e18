-- ===== src/Signaling.antt =====
-- src/apprtc_signaling_client.cc: what the network thread and the web socket do.
pub mod Http
pub mod Transfer
pub mod Join
pub mod Socket
pub mod Callbacks
