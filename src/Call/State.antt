-- ===== src/Call/State.antt =====
-- The state of `CallController`, and the requests that it makes of the signaling client.
use vcpkg_webrtc_sample.Prelude.{ℕ, String, Bool, false, Option, none, List, [], Status}
use vcpkg_webrtc_sample.Common.Config.{AppConfig, runtime_failed, to_int}
use vcpkg_webrtc_sample.Common.Message.{SignalingMessage}
use vcpkg_webrtc_sample.Common.Join.{JoinResponse}
use vcpkg_webrtc_sample.Peer.Api.{PeerApi}
use vcpkg_webrtc_sample.Call.Types.{CallState, starting, TerminalReason}

-- The callbacks that are handed along with a message.
pub data SendCallback : Type 0 where
  after_description after_candidate after_bye : SendCallback

-- The calls of the public methods of `AppRtcSignalingClient`, with their arguments. A join and a
-- registration have one callback each.
pub data Request : Type 0 where
  join_room : String → String → Request
  connect_web_socket : JoinResponse → Request
  register : JoinResponse → Request
  send_to_room : String → String → String → String → SendCallback → Request
  send_web_socket_message : String → SendCallback → Request
  close_signaling : JoinResponse → Request

pub record Call (api : PeerApi) : Type 0 where
  -- The data members of the class.
  pub config : AppConfig
  pub peer : api.State
  pub join_response : Option JoinResponse
  pub pending_signaling_messages : List SignalingMessage
  pub stats_running : Bool
  pub state : CallState
  pub exit_code : ℕ
  pub startup_timeout_generation : ℕ
  pub call_duration_generation : ℕ
  pub negotiation_ready : Bool
  pub signaling_action_in_flight : Bool
  pub offer_started : Bool
  pub peer_connected : Bool
  pub remote_media_seen : Bool
  pub call_established : Bool
  pub finished : Bool
  -- What the controller has handed out: the requests made, the newest first, and the callbacks
  -- that have not run, by the call that they belong to; a delayed task has the generation that
  -- it captured.
  pub requests : List Request
  pub join_callbacks : ℕ
  pub register_callbacks : ℕ
  pub description_callbacks : ℕ
  pub candidate_callbacks : ℕ
  pub bye_callbacks : ℕ
  pub startup_timers : List ℕ
  pub duration_timers : List ℕ
  -- The line "terminal reason=" of `CompleteFinish`, and whether the thread was told to quit.
  pub terminal : Option (TerminalReason × Status)
  pub quit : Bool

-- The member initialisers. The constructor also sets the callbacks of the two clients.
abbrev pub new_call : (api : PeerApi) → AppConfig → Call api
new_call api config = record {
  config = config;
  peer = api.initial;
  join_response = none;
  pending_signaling_messages = [];
  stats_running = false;
  state = starting;
  exit_code = to_int runtime_failed;
  startup_timeout_generation = 0;
  call_duration_generation = 0;
  negotiation_ready = false;
  signaling_action_in_flight = false;
  offer_started = false;
  peer_connected = false;
  remote_media_seen = false;
  call_established = false;
  finished = false;
  requests = [];
  join_callbacks = 0;
  register_callbacks = 0;
  description_callbacks = 0;
  candidate_callbacks = 0;
  bye_callbacks = 0;
  startup_timers = [];
  duration_timers = [];
  terminal = none;
  quit = false;
}
