-- ===== src/Tests/Sockets.antt =====
-- Runs of the web socket.
use vcpkg_webrtc_sample.Tests.{text_json, test_response}
use vcpkg_webrtc_sample.Prelude.{
  ◌≤◌, ◌<◌, ◌↔◌, ok, ◌≡◌, refl, true, false, none, some, List, [], ◌∷◌,
}
use vcpkg_webrtc_sample.Signaling.Http.{parse_json}
use vcpkg_webrtc_sample.Signaling.Socket.{
  Posted, Socket, new_socket, SocketStep, connects, registers, sends, hears, open_message,
  close_message, text_message, connect_web_socket, close_async, register_async,
  send_web_socket_message_async, server_error, on_web_socket_message, socket_step, run_socket,
}
use vcpkg_webrtc_sample.Signaling.Socket.Answers.{count_answers, count_requests, run_socket-answers}
use vcpkg_webrtc_sample.Signaling.Socket.Quiet.{NoneSucceeds, run_socket-Idle}
use vcpkg_webrtc_sample.Signaling.Socket.Closing.{close_message_after_close}
use vcpkg_webrtc_sample.Common.Message.{parse_signaling_message}
use vcpkg_webrtc_sample.Signaling.Transfer.{Transfer, curl_ok, post_json, delete}
use vcpkg_webrtc_sample.Signaling.Transfer.Released.{
  all_allowed, nothing_held, joined, requests_release, post_json-eq-ok,
}

-- A web socket that opens, registers, hears a message and is closed.
abbrev socket_steps : List SocketStep
socket_steps =
    connects test_response
    ∷ sends "bye" true
    ∷ hears open_message
    ∷ registers test_response true
    ∷ hears (text_message "offer")
    ∷ sends "answer" false
    ∷ hears close_message
    ∷ []

abbrev socket_after : List SocketStep → Socket → Socket × List Posted
socket_after xs s = elim (run_socket text_json xs s) [ none ↦ (s, []) | some r ↦ r ]

socket_steps_run :
    run_socket text_json socket_steps new_socket
    ≡ some ((socket_after socket_steps new_socket).0, (socket_after socket_steps new_socket).1)
unfolding parse_signaling_message connect_web_socket register_async send_web_socket_message_async
    on_web_socket_message socket_step run_socket parse_json
socket_steps_run = refl

run_socket-answers_example :
    count_answers (socket_after socket_steps new_socket).1 ≡ count_requests socket_steps
run_socket-answers_example =
    run_socket-answers text_json socket_steps new_socket (socket_after socket_steps new_socket).0
      (socket_after socket_steps new_socket).1 socket_steps_run

-- Two requests before the socket opens.
abbrev early_steps : List SocketStep
early_steps = registers test_response true ∷ hears close_message ∷ sends "bye" true ∷ []

early_steps_run :
    run_socket text_json early_steps new_socket
    ≡ some ((socket_after early_steps new_socket).0, (socket_after early_steps new_socket).1)
unfolding send_web_socket_message_async on_web_socket_message socket_step run_socket
early_steps_run = refl

run_socket-Idle_example :
    ((socket_after early_steps new_socket).0.websocket_open ≡ false)
    × ((socket_after early_steps new_socket).0.sent ≡ [])
    × NoneSucceeds (socket_after early_steps new_socket).1
run_socket-Idle_example =
    run_socket-Idle text_json early_steps new_socket (socket_after early_steps new_socket).0
      (socket_after early_steps new_socket).1 (refl, (refl, (refl, tt))) refl early_steps_run

abbrev closing_socket : Socket
closing_socket = close_async test_response new_socket

late_steps_run :
    run_socket text_json early_steps closing_socket
    ≡ some
        ((socket_after early_steps closing_socket).0, (socket_after early_steps closing_socket).1)
unfolding send_web_socket_message_async server_error on_web_socket_message socket_step run_socket
late_steps_run = refl

close_message_after_close_example :
    on_web_socket_message text_json close_message (socket_after early_steps closing_socket).0
    ≡ some (record (socket_after early_steps closing_socket).0 { websocket_open = false }, [])
close_message_after_close_example =
    close_message_after_close text_json test_response early_steps new_socket
      (socket_after early_steps closing_socket).0 (socket_after early_steps closing_socket).1 tt
      late_steps_run

-- A response in two pieces.
abbrev good_transfer : Transfer
good_transfer = record {
  has_handle = true;
  has_headers = true;
  pieces = "SUC" ∷ "CESS" ∷ [];
  code = curl_ok;
  response_code = 204;
  response_text = "204";
}

requests_release_example :
    (all_allowed nothing_held (post_json good_transfer "url" "{}").1 ≡ true)
    × (all_allowed nothing_held (delete good_transfer "url").1 ≡ true)
requests_release_example = requests_release good_transfer "url" "{}"

post_json-eq-ok_example : ((post_json good_transfer "url" "{}").0 ≡ ok "SUCCESS") ↔ (
    (good_transfer.has_handle ≡ true)
    × (good_transfer.code ≡ curl_ok)
    × (200 ≤ good_transfer.response_code)
    × (good_transfer.response_code < 300)
    × ("SUCCESS" ≡ joined good_transfer.pieces))
post_json-eq-ok_example = post_json-eq-ok good_transfer "url" "{}" "SUCCESS"
