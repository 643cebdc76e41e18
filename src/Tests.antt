-- ===== src/Tests.antt =====
-- Small stand-ins for jsoncpp and the WebRTC library, and inputs for runs of the model.
mod Calls
mod Arrivals
mod Sockets
mod Parts
mod Systems
mod Texts
mod RoundTrips
mod Audios
mod Peers
mod Videos
use vcpkg_webrtc_sample.Prelude.{
  not, str_eq, ℕ, suc, if◌then◌else◌, String, true, false, some, List, [], ◌∷◌, Crashes, Result,
  ok_status,
}
use vcpkg_webrtc_sample.Prelude.Int.{pos}
use vcpkg_webrtc_sample.Common.Config.{AppConfig, default_config}
use vcpkg_webrtc_sample.Common.Json.{Json, parsed}
use vcpkg_webrtc_sample.Common.Message.{SignalingMessage}
use vcpkg_webrtc_sample.Common.Join.{JoinResponse}
use vcpkg_webrtc_sample.Peer.Rtc.{Rtc, done}
use vcpkg_webrtc_sample.Peer.Api.{PeerApi}
use vcpkg_webrtc_sample.Peer.Client.{peer_client}
use vcpkg_webrtc_sample.Common.Ice.{IceServer}
use vcpkg_webrtc_sample.Common.Message.{parse_signaling_message}
use vcpkg_webrtc_sample.Peer.Negotiation.{create_offer, create_answer}

-- Every text is a value that is a string, an object and an array: the text "join" is the answer to a
-- join, and any other has itself as its members and its elements.
abbrev pub test_member : String → String → String
test_member v name =
    if not (str_eq v "join")
    then v
    else if str_eq name "result"
    then "SUCCESS"
    else if str_eq name "params"
    then "join"
    else if str_eq name "is_initiator"
    then "true"
    else name

abbrev pub test_elements : String → List String
test_elements v =
    if str_eq v "messages" then "candidate" ∷ "answer" ∷ "candidate" ∷ [] else v ∷ v ∷ []

abbrev pub text_json : Json
text_json = record {
  Value = String;
  parse = parsed;
  write = λ v. v;
  is_bool = λ v. false;
  is_string = λ v. true;
  is_array = λ v. true;
  is_object = λ v. true;
  as_bool = λ v. some false;
  as_string = λ v. some v;
  as_int = λ v. some (pos 0);
  member = λ v name. some (test_member v name);
  elements = test_elements;
  empty_object = "";
  of_string = λ s. s;
  of_int = λ n. "";
  with_member = λ v name w. w;
}

-- A connection counts the candidates that it was given.
abbrev pub counting_rtc : Rtc
counting_rtc = record {
  Connection = ℕ;
  Candidate = String;
  Description = String;
  network_thread_starts = true;
  worker_thread_starts = true;
  factory_created = true;
  create_peer_connection = λ servers. done 0;
  add_track = λ c name. done c;
  create_offer = λ c. c;
  create_answer = λ c. c;
  set_local_description = λ d c. c;
  set_remote_description = λ d c. c;
  create_ice_candidate = λ mid index text. done text;
  add_ice_candidate = λ a c. (true, suc c);
  get_stats = λ c. c;
  create_session_description = λ type sdp. done sdp;
  description_type = λ d. "offer";
  description_to_string = λ d. some d;
}

abbrev pub api : PeerApi
api = peer_client text_json counting_rtc ok_status

abbrev pub test_config : AppConfig
test_config = record default_config { room_id = "room"; video_path = "video.mp4" }

abbrev pub test_server : IceServer
test_server = record { urls = "pc_config" ∷ []; username = "pc_config"; password = "pc_config" }

abbrev pub test_response : JoinResponse
test_response = record {
  result = "SUCCESS";
  room_id = "room_id";
  client_id = "client_id";
  is_initiator = true;
  wss_url = "wss_url";
  wss_post_url = "wss_post_url";
  pc_config_json = "pc_config";
  messages = "candidate" ∷ "answer" ∷ "candidate" ∷ [];
  ice_servers = test_server ∷ test_server ∷ [];
}

abbrev pub parse : String → Crashes (Result SignalingMessage)
parse = parse_signaling_message text_json
