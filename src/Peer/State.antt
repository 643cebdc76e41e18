-- ===== src/Peer/State.antt =====
-- The state of `PeerConnectionClient`, its observers and what can happen to it.
use vcpkg_webrtc_sample.Prelude.{ℕ, String, Bool, false, Option, none, List, []}
use vcpkg_webrtc_sample.Prelude.Int.{ℤ}
use vcpkg_webrtc_sample.Common.Message.{SignalingMessage}
use vcpkg_webrtc_sample.Common.Join.{JoinResponse}
use vcpkg_webrtc_sample.Peer.Rtc.{Rtc, RtcResult}

-- Whom the callback of `ApplyRemoteDescription` serves: `SetRemoteAnswer`'s own callback, or the
-- lambda of `SetRemoteOfferAndCreateAnswer`.
pub data AfterRemote : Type 0 where
  report then_create_answer : AfterRemote

-- What an observer's callback goes on with.
pub data Observer : Type 0 where
  -- `CreateDescriptionObserver`, of `CreateOffer` and of `CreateAnswer`.
  create_description : Observer
  -- `SetLocalObserver`, with the JSON text to hand back.
  set_local : String → Observer
  -- `SetRemoteObserver`.
  set_remote : AfterRemote → Observer

pub data ConnectionState : Type 0 where
  new_state connecting connected_peer disconnected failed closed : ConnectionState

pub record Peer (rtc : Rtc) : Type 0 where
  pub join_response : Option JoinResponse
  -- The flag of `task_safety_`, a new one after each `reset`.
  pub safety : ℕ
  pub factory : Bool
  pub connection : Option rtc.Connection
  pub video_source : Bool
  pub remote_frame_sink : Bool
  -- To how many tracks the frame sink was attached.
  pub attached_tracks : ℕ
  pub connected : Bool
  pub remote_media_seen : Bool
  pub remote_description_set : Bool
  pub pending_remote_candidates : List SignalingMessage
  -- The observers that have not called back, each with the safety flag that it captured.
  pub observers : List (ℕ × Observer)

-- What an observer is told; `none` is success.
pub data Answer (rtc : Rtc) : Type 0 where
  created : RtcResult rtc.Description → Answer rtc
  applied : Option String → Answer rtc

-- What runs on the signaling thread for a callback of the library.
pub data PeerEvent (rtc : Rtc) : Type 0 where
  -- An observer, named by its place among those that wait.
  called_back : ℕ → Answer rtc → PeerEvent rtc
  connection_change : ConnectionState → PeerEvent rtc
  -- `nullptr`, or the index, the mid and what `ToString` gives.
  ice_candidate : Option (ℤ × String × Option String) → PeerEvent rtc
  -- The task that `RemoteFrameSink::OnFrame` posts, with the safety flag that it captured.
  frame_arrived : ℕ → PeerEvent rtc
  -- A transceiver: without a track, or with one that is a video track or not.
  track_added : Option Bool → PeerEvent rtc
  -- The callbacks that only log: the signaling, the ICE connection and the ICE gathering state,
  -- and that a renegotiation is needed.
  state_logged : PeerEvent rtc

abbrev pub initial_peer : (rtc : Rtc) → Peer rtc
initial_peer rtc = record {
  join_response = none;
  safety = 0;
  factory = false;
  connection = none;
  video_source = false;
  remote_frame_sink = false;
  attached_tracks = 0;
  connected = false;
  remote_media_seen = false;
  remote_description_set = false;
  pending_remote_candidates = [];
  observers = [];
}
