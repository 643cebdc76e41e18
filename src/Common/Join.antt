-- ===== src/Common/Join.antt =====
-- `JoinResponse` of src/apprtc_common.h: what the room server answers to a join.
use vcpkg_webrtc_sample.Prelude.{String, Bool, List}
use vcpkg_webrtc_sample.Common.Ice.{IceServer}

pub record JoinResponse : Type 0 where
  pub result : String
  pub room_id : String
  pub client_id : String
  pub is_initiator : Bool
  pub wss_url : String
  pub wss_post_url : String
  pub pc_config_json : String
  pub messages : List String
  pub ice_servers : List IceServer
