-- ===== src/Tests/RoundTrips.antt =====
-- Texts that go through the small JSON library.
use vcpkg_webrtc_sample.Tests.Texts.{
  no_members, text, number, member_of, write_onto, tree_json, tree_json-IsLawful, Tree,
}
use Prim.Native.String.{[] as end}
use mathlib.Core.List.{reverse_aux}
use vcpkg_webrtc_sample.Prelude.{◌≡◌, refl, String, true, some, List, [], ◌∷◌, map, ok, ok_status}
use vcpkg_webrtc_sample.Prelude.Int.{pos}
use vcpkg_webrtc_sample.Common.Message.{
  SignalingMessage, blank, answer, candidate, parse_signaling_message,
  serialize_session_description, serialize_ice_candidate,
}
use vcpkg_webrtc_sample.Common.Message.RoundTrip.{
  an_answer, parse_signaling_message-serialize_session_description,
  parse_signaling_message-serialize_ice_candidate,
}
use vcpkg_webrtc_sample.Signaling.Socket.{
  Socket, new_socket, answered, message_received, run_socket,
}
use vcpkg_webrtc_sample.Signaling.Socket.Relay.{
  sending, hearing, relay_delivers, simple_relay, simple_relay-IsRelay,
}

abbrev answer_text : String
answer_text =
    write_onto (member_of (member_of no_members "type" (text "answer")) "sdp" (text "v=0")) end

parse_signaling_message-serialize_session_description_example :
    parse_signaling_message tree_json answer_text
    ≡ some (ok (record (blank answer_text) { kind = answer; sdp_type = "answer"; sdp = "v=0" }))
unfolding serialize_session_description
parse_signaling_message-serialize_session_description_example =
    parse_signaling_message-serialize_session_description tree_json-IsLawful answer "v=0"
      answer_text an_answer refl

abbrev candidate_json : Tree
candidate_json =
    let o = member_of no_members "type" (text "candidate") in
    let o = member_of (member_of o "label" (number (pos 2))) "id" (text "audio") in
    member_of o "candidate" (text "udp")

abbrev candidate_message : SignalingMessage
candidate_message = record (blank (write_onto candidate_json end)) {
  kind = candidate;
  candidate_text = "udp";
  sdp_mid = "audio";
  sdp_mline_index = pos 2;
}

parse_signaling_message-serialize_ice_candidate_example :
    parse_signaling_message tree_json (write_onto candidate_json end) ≡ some (ok candidate_message)
unfolding serialize_ice_candidate
parse_signaling_message-serialize_ice_candidate_example =
    parse_signaling_message-serialize_ice_candidate tree_json-IsLawful (pos 2) "audio" "udp"
      (write_onto candidate_json end) refl

abbrev open_socket : Socket
open_socket = record new_socket { websocket_open = true; started = true }

-- An answer, and a candidate.
abbrev two_texts : List String
two_texts = answer_text ∷ write_onto candidate_json end ∷ []

abbrev two_messages : List SignalingMessage
two_messages =
    record (blank answer_text) { kind = answer; sdp_type = "answer"; sdp = "v=0" }
    ∷ candidate_message
    ∷ []

relay_delivers_example :
    (commands : List String) × (run_socket tree_json (sending tree_json two_texts) open_socket
      ≡ some (
        record open_socket { sent = reverse_aux commands [] },
        answered ok_status ∷ answered ok_status ∷ [],
      ))
    × (run_socket tree_json (hearing tree_json (simple_relay tree_json) commands) open_socket
        ≡ some (open_socket, map (λ m. message_received m) two_messages))
relay_delivers_example =
    relay_delivers tree_json-IsLawful (simple_relay tree_json) two_texts two_messages open_socket
      open_socket (simple_relay-IsRelay tree_json-IsLawful)
      (
        parse_signaling_message-serialize_session_description_example,
        (parse_signaling_message-serialize_ice_candidate_example, tt),
      )
      refl
