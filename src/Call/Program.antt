-- ===== src/Call/Program.antt =====
-- The program as `RunAppRtcCall` puts it together: the controller over the peer connection client,
-- with the messages read by `ParseSignalingMessage`.
use vcpkg_webrtc_sample.Prelude.{
  ◌≡◌, some, List, [], ◌∷◌, String, Crashes, Result, ok, err, Status, Returns,
}
use vcpkg_webrtc_sample.Common.Config.{AppConfig}
use vcpkg_webrtc_sample.Common.Json.{Json}
use vcpkg_webrtc_sample.Common.Ice.{parse_ice_servers}
use vcpkg_webrtc_sample.Common.Join.{JoinResponse}
use vcpkg_webrtc_sample.Common.Message.{parse_signaling_message}
use vcpkg_webrtc_sample.Signaling.Join.{join_room_answer}
use vcpkg_webrtc_sample.Signaling.Join.Accepted.{join_room_answer-Accepted}
use vcpkg_webrtc_sample.Peer.Rtc.{Rtc}
use vcpkg_webrtc_sample.Peer.Client.{peer_client}
use vcpkg_webrtc_sample.Peer.Contract.{peer_laws}
use vcpkg_webrtc_sample.Call.State.{Call}
use vcpkg_webrtc_sample.Call.Run.{
  Event, join_complete, register_complete, description_sent, candidate_sent, bye_sent,
  startup_timer, duration_timer, stats_timer, web_socket_open, inbound, signaling_failure,
  peer_event, run,
}
use vcpkg_webrtc_sample.Call.Safety.{Safe}
use vcpkg_webrtc_sample.Call.Safety.Handlers.{Decode}
use vcpkg_webrtc_sample.Call.Safety.Run.{Readable, AllReadable, run_total}

module _ (json : Json) (rtc : Rtc) (start_video : Status) where
  abbrev pub run_program :
      AppConfig
      → List (Event (peer_client json rtc start_video))
      → Crashes (Call (peer_client json rtc start_video))
  run_program = run (parse_signaling_message json)

  -- The messages that waited in the room can be read without an exception.
  abbrev pub Reads : Result JoinResponse → Type 0
  Reads (err e) = Unit
  Reads (ok jr) = Decode (parse_signaling_message json) jr.messages

  -- The answer to the join is one that `JoinRoomAsync` hands on, for some answer of the room server
  -- to the post.
  abbrev pub Answered : Event (peer_client json rtc start_video) → Type 0
  Answered (join_complete r) =
      (answer : Result String) × (join_room_answer json answer ≡ some r) × Reads r
  Answered e = Unit

  abbrev pub AllAnswered : List (Event (peer_client json rtc start_video)) → Type 0
  AllAnswered [] = Unit
  AllAnswered (e ∷ es) = Answered e × AllAnswered es

  abbrev Ready : Event (peer_client json rtc start_video) → Type 0
  Ready = Readable (peer_laws json rtc start_video) (parse_signaling_message json)

  accepts :
      (jr : JoinResponse)
      → parse_ice_servers json jr.pc_config_json ≡ some (ok jr.ice_servers)
      → Returns (λ r. Unit) (parse_ice_servers json jr.pc_config_json)
  accepts jr h = rw h tt

  join_ready :
      (r : Result JoinResponse) (answer : Result String)
      → join_room_answer json answer ≡ some r
      → Reads r
      → Ready (join_complete r)
  join_ready (err e) answer h a = tt
  join_ready (ok jr) answer h a = (accepts jr (join_room_answer-Accepted json answer jr h).1, a)

  ready : (e : Event (peer_client json rtc start_video)) → Answered e → Ready e
  ready (join_complete r) (answer, h, a) = join_ready r answer h a
  ready (register_complete s) a = tt
  ready (description_sent s) a = tt
  ready (candidate_sent s) a = tt
  ready (bye_sent s) a = tt
  ready (startup_timer g) a = tt
  ready (duration_timer g) a = tt
  ready stats_timer a = tt
  ready web_socket_open a = tt
  ready (inbound m) a = tt
  ready (signaling_failure e) a = tt
  ready (peer_event e) a = tt

  all_ready :
      (es : List (Event (peer_client json rtc start_video)))
      → AllAnswered es
      → AllReadable (peer_laws json rtc start_video) (parse_signaling_message json) es
  all_ready [] a = tt
  all_ready (e ∷ es) (a, rest) = (ready e a, all_ready es rest)

  -- Whatever the room server, the JSON library, the WebRTC library and `FileVideoSource::Start`
  -- answer, a schedule whose join response is one that `JoinRoomAsync` hands on, with messages that
  -- jsoncpp reads without an exception, crashes nowhere: no RTC_CHECK on the join response fails,
  -- no null pointer is dereferenced, and no exception leaves a callback. In the state that it
  -- reaches, at most one negotiation action is under way, and exactly one if the flag of the
  -- controller says so, unless the thread was told to quit.
  pub run_program_total :
      (config : AppConfig) (es : List (Event (peer_client json rtc start_video)))
      → AllAnswered es
      → (c : Call (peer_client json rtc start_video)) × (run_program config es ≡ some c)
        × Safe (peer_laws json rtc start_video) 0 c
  run_program_total config es a =
      run_total (peer_laws json rtc start_video) (parse_signaling_message json) config es
        (all_ready es a)
