-- ===== src/Common.antt =====
-- src/apprtc_common.h and src/apprtc_common.cc: what the other parts share.
pub mod Config
pub mod Json
pub mod Message
pub mod Ice
pub mod Join
