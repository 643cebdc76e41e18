-- ===== src/Tests/Systems.antt =====
-- A run of the threads.
use vcpkg_webrtc_sample.Tests.{text_json, counting_rtc, api, test_config, test_response}
use vcpkg_webrtc_sample.Prelude.{
  ◌+◌, ◌≡◌, refl, subst, true, none, some, String, List, [], ◌∷◌, Sublist, ◌++◌, Result, ok,
  ok_status,
}
use vcpkg_webrtc_sample.Common.Join.{JoinResponse}
use vcpkg_webrtc_sample.Common.Ice.{parse_ice_servers}
use vcpkg_webrtc_sample.Common.Message.{parse_signaling_message}
use vcpkg_webrtc_sample.Signaling.Http.{parse_json}
use vcpkg_webrtc_sample.Signaling.Join.{join_room_answer, read_join_response}
use vcpkg_webrtc_sample.Signaling.Transfer.{curl_ok, post_empty}
use vcpkg_webrtc_sample.Signaling.Socket.{
  open_message, text_message, connect_web_socket, register_async, on_web_socket_message,
}
use vcpkg_webrtc_sample.Peer.Setup.{initialize, start_media as start_tracks}
use vcpkg_webrtc_sample.Peer.Contract.{peer_laws}
use vcpkg_webrtc_sample.Call.Handlers.{start, on_join_complete, on_web_socket_open}
use vcpkg_webrtc_sample.Call.Queue.{stable_sort, parse_messages}
use vcpkg_webrtc_sample.Call.Run.{Event, has, claim, deliver, step}
use vcpkg_webrtc_sample.Call.Kept.{core}
use vcpkg_webrtc_sample.Call.Requests.{of_register, count, callbacks}
use vcpkg_webrtc_sample.Call.Program.{Reads, AllAnswered, run_program}
use vcpkg_webrtc_sample.Call.Safety.{Safe}
use vcpkg_webrtc_sample.System.{
  Reply, System, Move, works, hears, calls_back, start_system, perform, run_event, call_back, move,
  run_moves, run_system,
}
use vcpkg_webrtc_sample.System.Answers.{count_answers}
use vcpkg_webrtc_sample.System.Balance.{run_system-IsBalanced}
use vcpkg_webrtc_sample.Call.State.{Request}
use vcpkg_webrtc_sample.System.Sent.{texts}
use vcpkg_webrtc_sample.System.Order.{newest_first, run_system_in_order}
use vcpkg_webrtc_sample.System.Refines.{run_system_refines}
use vcpkg_webrtc_sample.System.Posted.{AllCanRead}

abbrev join_reply : Reply
join_reply = record {
  transfer = record {
    has_handle = true;
    has_headers = true;
    pieces = "jo" ∷ "in" ∷ [];
    code = curl_ok;
    response_code = 200;
    response_text = "200";
  };
  success = true;
}

-- The join and its callback, the web socket and its callback, the registration, which is not yet
-- heard of, and a message.
abbrev some_moves : List (Move text_json api)
some_moves =
    works join_reply
    ∷ calls_back
    ∷ works join_reply
    ∷ hears open_message
    ∷ calls_back
    ∷ works join_reply
    ∷ hears (text_message "candidate")
    ∷ []

abbrev system_after : System text_json api
system_after = elim (run_system text_json api test_config some_moves) [
  | none ↦ start_system text_json api test_config
  | some s ↦ s
]

some_moves_run : run_system text_json api test_config some_moves ≡ some system_after
unfolding run_system move start perform join_room_answer post_empty parse_json read_join_response
    parse_ice_servers step claim deliver on_join_complete initialize start_tracks parse_messages
    parse_signaling_message on_web_socket_message on_web_socket_open stable_sort connect_web_socket
    register_async run_event call_back has run_moves
some_moves_run = refl

-- Whatever the url, the answer is the one that can be read.
some_moves-AllCanRead : AllCanRead text_json counting_rtc ok_status some_moves
unfolding join_room_answer post_empty parse_json read_join_response parse_ice_servers
    parse_signaling_message
some_moves-AllCanRead =
    let can : (url : String) (r : Result JoinResponse)
        → join_room_answer text_json (post_empty join_reply.transfer url).0 ≡ some r
        → Reads text_json counting_rtc ok_status r =
      λ url r e.
        let q : ok test_response ≡ r = cc in
        subst (Reads text_json counting_rtc ok_status) q (tt, (tt, (tt, tt))) in
    (can, (tt, (can, (tt, (tt, (can, (tt, tt)))))))

run_system-IsBalanced_example :
    callbacks of_register (core system_after.call)
    ≡ count of_register system_after.tasks
      + count_answers text_json api of_register system_after.posted
run_system-IsBalanced_example =
    run_system-IsBalanced text_json api test_config some_moves system_after some_moves_run
      of_register

run_system_refines_example :
    (es : List (Event api)) × AllAnswered text_json counting_rtc ok_status es
    × (run_program text_json counting_rtc ok_status test_config es ≡ some system_after.call)
    × Safe (peer_laws text_json counting_rtc ok_status) 0 system_after.call
run_system_refines_example =
    run_system_refines text_json counting_rtc ok_status test_config some_moves system_after
      some_moves-AllCanRead some_moves_run

run_system_in_order_example :
    (performed : List Request) × (system_after.call.requests
      ≡ newest_first system_after.tasks ++ performed)
    × Sublist system_after.socket.sent (texts text_json api performed)
run_system_in_order_example =
    run_system_in_order text_json api test_config some_moves system_after some_moves_run
