-- ===== src/Tests/Parts.antt =====
-- The parts that are computed without a run.
use vcpkg_webrtc_sample.Tests.{text_json, counting_rtc, api, test_config, test_response, parse}
use vcpkg_webrtc_sample.Prelude.{
  ◌≡◌, ◌↔◌, ◌++◌, refl, String, true, none, some, List, [], ◌∷◌, ok, ok_status,
}
use vcpkg_webrtc_sample.Common.Config.{validate_config}
use vcpkg_webrtc_sample.Common.Config.Valid.{IsValid, validate_config-IsValid}
use vcpkg_webrtc_sample.Common.Message.{SignalingMessage, blank, candidate}
use vcpkg_webrtc_sample.Peer.State.{Peer, initial_peer}
use vcpkg_webrtc_sample.Call.State.{new_call}
use vcpkg_webrtc_sample.Signaling.Http.{parse_json}
use vcpkg_webrtc_sample.Signaling.Join.{read_join_response, join_room_answer}
use vcpkg_webrtc_sample.Signaling.Join.Accepted.{Accepted, join_room_answer-Accepted}
use vcpkg_webrtc_sample.Common.Ice.Servers.{HaveUrls, parse_ice_servers-HaveUrls}
use vcpkg_webrtc_sample.Call.Queue.Order.{by_kind}
use vcpkg_webrtc_sample.Call.Arrival.{queue_join_messages-by_kind}
use vcpkg_webrtc_sample.Peer.Candidates.Early.{verdict, add_early-verdict}
use vcpkg_webrtc_sample.Call.Handlers.{queue_join_messages}
use vcpkg_webrtc_sample.Call.Queue.{parse_messages}
use vcpkg_webrtc_sample.Common.Ice.{IceServer, parse_ice_servers}
use vcpkg_webrtc_sample.Common.Message.{parse_signaling_message}
use vcpkg_webrtc_sample.Peer.Candidates.Early.{add_all, add_early}

validate_config-IsValid_example : (validate_config test_config ≡ ok_status) ↔ IsValid test_config
validate_config-IsValid_example = validate_config-IsValid test_config

abbrev read_servers_of : String → List IceServer
read_servers_of text = elim (parse_ice_servers text_json text) [
  | some (ok servers) ↦ servers
  | _ ↦ []
]

servers_read : parse_ice_servers text_json "stun:a" ≡ some (ok (read_servers_of "stun:a"))
unfolding parse_ice_servers
servers_read = refl

parse_ice_servers-HaveUrls_example : HaveUrls (read_servers_of "stun:a")
parse_ice_servers-HaveUrls_example =
    parse_ice_servers-HaveUrls text_json "stun:a" (read_servers_of "stun:a") servers_read

abbrev waiting_messages : List SignalingMessage
waiting_messages = elim (parse_messages parse test_response.messages) [ some ms ↦ ms | none ↦ [] ]

messages_parsed : parse_messages parse test_response.messages ≡ some waiting_messages
unfolding parse_messages parse_signaling_message
messages_parsed = refl

queue_join_messages-by_kind_example :
    queue_join_messages parse test_response (new_call api test_config)
    ≡ some (record (new_call api test_config) {
      pending_signaling_messages = [] ++ by_kind waiting_messages;
    })
queue_join_messages-by_kind_example =
    queue_join_messages-by_kind parse test_response (new_call api test_config) waiting_messages
      messages_parsed

abbrev candidates : List SignalingMessage
candidates = record (blank "a") { kind = candidate } ∷ record (blank "b") { kind = candidate } ∷ []

abbrev open_peer : Peer counting_rtc
open_peer = record (initial_peer counting_rtc) { connection = some 0 }

add_early-verdict_example :
    verdict (add_early candidates open_peer)
    ≡ verdict (add_all candidates (record open_peer { remote_description_set = true }))
add_early-verdict_example = add_early-verdict candidates open_peer refl refl

join_accepted : join_room_answer text_json (ok "join") ≡ some (ok test_response)
unfolding parse_ice_servers parse_json read_join_response join_room_answer
join_accepted = refl

join_room_answer-Accepted_example : Accepted text_json test_response
join_room_answer-Accepted_example =
    join_room_answer-Accepted text_json (ok "join") test_response join_accepted
