-- ===== src/Peer/Rtc.antt =====
-- What the peer connection client uses of the WebRTC library, which is not part of the repository.
--
-- A call that changes the native connection takes it and gives the new one. Its asynchronous calls
-- only start something: what comes of it is an event.
use vcpkg_webrtc_sample.Prelude.{String, Bool, Option, List}
use vcpkg_webrtc_sample.Prelude.Int.{ℤ}
use vcpkg_webrtc_sample.Common.Ice.{IceServer}

-- A value, or the message of a `webrtc::RTCError` or `webrtc::SdpParseError`.
pub data RtcResult (A : Type 0) : Type 0 where
  done : A → RtcResult A
  rtc_error : String → RtcResult A

pub data SdpType : Type 0 where
  offer_type answer_type : SdpType

pub record Rtc : Type 1 where
  pub Connection : Type 0
  pub Candidate : Type 0
  pub Description : Type 0
  -- `Thread::Start` of the network thread and the worker thread, and whether
  -- `CreateModularPeerConnectionFactory` gives a factory.
  pub network_thread_starts : Bool
  pub worker_thread_starts : Bool
  pub factory_created : Bool
  pub create_peer_connection : List IceServer → RtcResult Connection
  pub add_track : Connection → String → RtcResult Connection
  pub create_offer : Connection → Connection
  pub create_answer : Connection → Connection
  pub set_local_description : Description → Connection → Connection
  pub set_remote_description : Description → Connection → Connection
  pub create_ice_candidate : String → ℤ → String → RtcResult Candidate
  pub add_ice_candidate : Candidate → Connection → Bool × Connection
  pub get_stats : Connection → Connection
  pub create_session_description : SdpType → String → RtcResult Description
  pub description_type : Description → String
  pub description_to_string : Description → Option String
