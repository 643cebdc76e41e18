-- ===== src/Tests/Arrivals.antt =====
-- A run of a call that is handed messages.
use vcpkg_webrtc_sample.Tests.{api, test_config, test_response, parse}
use vcpkg_webrtc_sample.Prelude.{
  ◌≡◌, refl, false, none, some, List, [], ◌∷◌, Sublist, length, Crashes, ok, ok_status,
}
use vcpkg_webrtc_sample.Prelude.Int.{pos}
use vcpkg_webrtc_sample.Call.State.{Call, new_call}
use vcpkg_webrtc_sample.Signaling.Http.{parse_json}
use vcpkg_webrtc_sample.Signaling.Join.{read_join_response, join_room_answer}
use vcpkg_webrtc_sample.Common.Message.{SignalingMessage, candidate}
use vcpkg_webrtc_sample.Call.Heard.{listening, told, arrivals}
use vcpkg_webrtc_sample.Call.Heard.Steps.{run_hears_in_order}
use vcpkg_webrtc_sample.Call.Run.{Event, join_complete, register_complete, web_socket_open, inbound}
use vcpkg_webrtc_sample.Call.Finish.{finish, maybe_mark_call_established}
use vcpkg_webrtc_sample.Call.Handlers.{
  start, on_duration_timer, on_join_complete, on_web_socket_open, on_register_complete,
  on_answer_done, on_description_done, on_description_sent, send_local_description,
  send_description, on_peer_connection_changed, on_remote_media_seen, on_signaling_error,
  on_peer_connection_error, on_bye_sent, on_inbound_signaling_message, notify, notify_all,
}
use vcpkg_webrtc_sample.Call.Pump.{pump_loop, pump_signaling_messages}
use vcpkg_webrtc_sample.Call.Queue.{stable_sort, parse_messages}
use vcpkg_webrtc_sample.Call.Run.{has, claim, deliver, step, run}
use vcpkg_webrtc_sample.Common.Ice.{parse_ice_servers}
use vcpkg_webrtc_sample.Common.Message.{parse_signaling_message, serialize_session_description}
use vcpkg_webrtc_sample.Peer.Candidates.{
  apply_candidate, flush_loop, add_remote_candidate, flush_pending_remote_candidates,
}
use vcpkg_webrtc_sample.Peer.Events.{take_at, on_connection_change, on_frame, handle}
use vcpkg_webrtc_sample.Peer.Negotiation.{
  create_offer, apply_local_description, apply_remote_description, set_remote_answer, resume,
}
use vcpkg_webrtc_sample.Peer.Setup.{start_media as start_tracks, initialize}

abbrev late_candidate : SignalingMessage
late_candidate = record {
  kind = candidate;
  raw_json = "";
  sdp_type = "";
  sdp = "";
  candidate_text = "late";
  sdp_mid = "0";
  sdp_mline_index = pos 0;
}

-- The answer is handed over, and three candidates wait for it.
abbrev heard_events : List (Event (listening api))
heard_events =
    join_complete (ok test_response)
    ∷ web_socket_open
    ∷ register_complete ok_status
    ∷ inbound late_candidate
    ∷ []

abbrev or_new : Crashes (Call (listening api)) → Call (listening api)
or_new none = new_call (listening api) test_config
or_new (some c) = c

abbrev hearing_call : Call (listening api)
hearing_call = or_new (run parse test_config heard_events)

hearing_call_lem :
    (run parse test_config heard_events ≡ some hearing_call)
    × (hearing_call.finished ≡ false)
    × (length hearing_call.pending_signaling_messages ≡ 3)
unfolding finish maybe_mark_call_established start on_duration_timer on_join_complete
    on_web_socket_open on_register_complete on_answer_done on_description_done on_description_sent
    send_local_description send_description on_peer_connection_changed on_remote_media_seen
    on_signaling_error on_peer_connection_error on_bye_sent on_inbound_signaling_message notify
    notify_all pump_loop pump_signaling_messages stable_sort parse_messages has claim deliver step
    run parse_ice_servers parse_signaling_message apply_candidate flush_loop add_remote_candidate
    flush_pending_remote_candidates take_at on_connection_change on_frame handle create_offer
    apply_remote_description set_remote_answer resume start_tracks initialize parse_json
    read_join_response join_room_answer serialize_session_description apply_local_description
hearing_call_lem = (refl, refl, refl)

run_hears_in_order_example :
    Sublist (told api hearing_call) (arrivals parse 1 heard_events)
    × (hearing_call.finished ≡ false → told api hearing_call ≡ arrivals parse 1 heard_events)
run_hears_in_order_example =
    run_hears_in_order api parse test_config heard_events hearing_call hearing_call_lem.0
