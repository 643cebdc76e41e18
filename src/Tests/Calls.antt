-- ===== src/Tests/Calls.antt =====
-- Runs of whole calls.
use vcpkg_webrtc_sample.Tests.{text_json, counting_rtc, api, test_config, test_response, parse}
use vcpkg_webrtc_sample.Prelude.{
  ◌≡◌, ◌↔◌, ◌&&◌, ◌≤◌, if◌then◌else◌, flag, refl, true, false, none, some, List, [], ◌∷◌, ◌++◌,
  Crashes, ok, Status, ok_status,
}
use vcpkg_webrtc_sample.Common.Config.{to_int, validate_config, validate_numbers, is_log_severity}
use vcpkg_webrtc_sample.Common.Config.Valid.{IsValid}
use vcpkg_webrtc_sample.Peer.Rtc.{done}
use vcpkg_webrtc_sample.Peer.State.{
  called_back, connection_change, frame_arrived, applied, created, connected_peer,
}
use vcpkg_webrtc_sample.Call.State.{Call, new_call}
use vcpkg_webrtc_sample.Call.Run.{
  Event, join_complete, register_complete, bye_sent, description_sent, duration_timer,
  web_socket_open, peer_event,
}
use vcpkg_webrtc_sample.Call.Finish.{finish, maybe_mark_call_established}
use vcpkg_webrtc_sample.Call.Program.{AllAnswered, run_program, run_program_total}
use vcpkg_webrtc_sample.Call.Safety.{Safe}
use vcpkg_webrtc_sample.Signaling.Http.{parse_json}
use vcpkg_webrtc_sample.Signaling.Join.{read_join_response, join_room_answer}
use vcpkg_webrtc_sample.Peer.Contract.{peer_laws}
use vcpkg_webrtc_sample.Call.Types.{
  log_severity_from_config, TerminalReason, exit_code_for_reason, finished_state,
}
use vcpkg_webrtc_sample.Call.Ending.{exit_code_of_run}
use vcpkg_webrtc_sample.Call.Settled.{initiates}
use vcpkg_webrtc_sample.Call.Settled.Steps.{run_leaves_nothing}
use vcpkg_webrtc_sample.Call.Goodbye.{byes, leaves, has_joined, reached_duration}
use vcpkg_webrtc_sample.Call.Goodbye.Steps.{run_says_goodbye_once}
use vcpkg_webrtc_sample.Call.Timers.{generation_bounds}
use vcpkg_webrtc_sample.Call.Timers.Closing.{closing, timers_end_call}
use vcpkg_webrtc_sample.Call.App.{
  Environment, can_wrap, run_app_rtc_call, with_validation, with_severity, with_ssl, call_on_thread,
}
use vcpkg_webrtc_sample.Main.{Flags, default_flags, config_from_flags, main}
use vcpkg_webrtc_sample.Main.Success.{main-eq-zero}
use vcpkg_webrtc_sample.Call.App.Codes.{are_nested, run_app_rtc_call-are_nested, exit_code-invalid}
use vcpkg_webrtc_sample.Call.Handlers.{
  start, on_duration_timer, on_join_complete, on_web_socket_open, on_register_complete,
  on_answer_done, on_description_done, on_description_sent, send_local_description,
  send_description, on_peer_connection_changed, on_remote_media_seen, on_signaling_error,
  on_peer_connection_error, on_bye_sent, notify, notify_all,
}
use vcpkg_webrtc_sample.Call.Pump.{pump_loop, pump_signaling_messages}
use vcpkg_webrtc_sample.Call.Queue.{stable_sort, parse_messages}
use vcpkg_webrtc_sample.Call.Run.{has, claim, deliver, step, run_events, run}
use vcpkg_webrtc_sample.Common.Ice.{parse_ice_servers}
use vcpkg_webrtc_sample.Common.Message.{parse_signaling_message, serialize_session_description}
use vcpkg_webrtc_sample.Peer.Candidates.{
  apply_candidate, flush_loop, add_remote_candidate, flush_pending_remote_candidates,
}
use vcpkg_webrtc_sample.Peer.Events.{take_at, on_connection_change, on_frame, handle}
use vcpkg_webrtc_sample.Peer.Negotiation.{
  create_offer, apply_local_description, apply_remote_description, set_remote_answer, resume,
}
use vcpkg_webrtc_sample.Peer.Setup.{start_media as start_tracks, initialize}

-- A call that joins, is answered, is established, and lasts until its timer.
abbrev whole_call : List (Event api)
whole_call =
    join_complete (ok test_response)
    ∷ web_socket_open
    ∷ register_complete ok_status
    ∷ peer_event (called_back 0 (applied none))
    ∷ peer_event (connection_change connected_peer)
    ∷ peer_event (frame_arrived 0)
    ∷ duration_timer 1
    ∷ bye_sent ok_status
    ∷ []

abbrev or_new : Crashes (Call api) → Call api
or_new none = new_call api test_config
or_new (some c) = c

-- The same call before its timer.
abbrev lasting_call : List (Event api)
lasting_call =
    join_complete (ok test_response)
    ∷ web_socket_open
    ∷ register_complete ok_status
    ∷ peer_event (called_back 0 (applied none))
    ∷ peer_event (connection_change connected_peer)
    ∷ peer_event (frame_arrived 0)
    ∷ []

-- The same call after its offer: created, applied, and sent to the room.
abbrev settled_call : List (Event api)
settled_call =
    lasting_call
    ++ (peer_event (called_back 0 (created (done "sdp")))
        ∷ peer_event (called_back 0 (applied none))
        ∷ description_sent ok_status
        ∷ [])

abbrev after : List (Event api) → Call api
after es = or_new (run parse test_config es)

-- What the runs compute to.
calls_run :
    (run parse test_config whole_call ≡ some (after whole_call))
    × ((after whole_call).quit ≡ true)
    × ((after whole_call).exit_code ≡ 0)
    × (run parse test_config lasting_call ≡ some (after lasting_call))
    × ((after lasting_call).quit ≡ false)
    × AllAnswered text_json counting_rtc ok_status whole_call
    × (run parse test_config settled_call ≡ some (after settled_call))
    × ((after settled_call).finished ≡ false)
    × ((after settled_call).negotiation_ready ≡ true)
    × ((after settled_call).signaling_action_in_flight ≡ false)
unfolding finish maybe_mark_call_established start on_duration_timer on_join_complete
    on_web_socket_open on_register_complete on_answer_done on_description_done on_description_sent
    send_local_description send_description on_peer_connection_changed on_remote_media_seen
    on_signaling_error on_peer_connection_error on_bye_sent notify notify_all pump_loop
    pump_signaling_messages stable_sort parse_messages has claim deliver step run parse_ice_servers
    parse_signaling_message apply_candidate flush_loop add_remote_candidate
    flush_pending_remote_candidates take_at on_connection_change on_frame handle create_offer
    apply_remote_description set_remote_answer resume start_tracks initialize parse_json
    read_join_response join_room_answer serialize_session_description apply_local_description
calls_run = (
  refl,
  refl,
  refl,
  refl,
  refl,
  ((ok "join", refl, (tt, (tt, (tt, tt)))), (tt, (tt, (tt, (tt, (tt, (tt, (tt, tt)))))))),
  refl,
  refl,
  refl,
  refl,
)

run_program_total_example :
    (c : Call api) × (run_program text_json counting_rtc ok_status test_config whole_call ≡ some c)
    × Safe (peer_laws text_json counting_rtc ok_status) 0 c
run_program_total_example =
    run_program_total text_json counting_rtc ok_status test_config whole_call calls_run.5

exit_code_of_run_example :
    (reason : TerminalReason) × (status : Status) × ((after whole_call).terminal
      ≡ some (reason, status))
    × ((after whole_call).exit_code ≡ to_int (exit_code_for_reason reason))
    × ((after whole_call).state ≡ finished_state)
    × ((after whole_call).exit_code ≡ 0 → (after whole_call).call_established ≡ true)
exit_code_of_run_example =
    exit_code_of_run parse test_config whole_call (after whole_call) calls_run.0 calls_run.1

timers_end_call_example :
    (d : Call api) × (run_events parse
        (closing parse
          (after lasting_call).finished
          (after lasting_call).call_established
          (after lasting_call))
        (after lasting_call)
      ≡ some d)
    × (d.quit ≡ true)
    × (d.exit_code ≡ (if (after lasting_call).call_established then 0 else 7))
timers_end_call_example =
    timers_end_call parse test_config lasting_call (after lasting_call) calls_run.3 calls_run.4

generation_bounds_example :
    ((after whole_call).startup_timeout_generation ≤ 3)
    × ((after whole_call).call_duration_generation ≤ 2)
generation_bounds_example =
    generation_bounds parse test_config whole_call (after whole_call) calls_run.0

run_leaves_nothing_example :
    ((after settled_call).pending_signaling_messages ≡ [])
    × (initiates (after settled_call).join_response ≡ true
        → (after settled_call).offer_started ≡ true)
run_leaves_nothing_example =
    run_leaves_nothing parse test_config settled_call (after settled_call) calls_run.6 calls_run.7
      calls_run.8 calls_run.9

abbrev all_well : Environment
all_well = record { ssl_initialized = true; start_source = ok_status; current_thread = can_wrap }

exit_code-invalid_example :
    ((run_app_rtc_call all_well test_config (after whole_call).exit_code).0 ≡ 2)
    ↔ ¬ IsValid test_config
exit_code-invalid_example =
    exit_code-invalid parse all_well test_config whole_call (after whole_call) calls_run.0
      calls_run.1

run_app_rtc_call-are_nested_example :
    are_nested [] (run_app_rtc_call all_well test_config 0).1 ≡ true
run_app_rtc_call-are_nested_example = run_app_rtc_call-are_nested all_well test_config 0

abbrev test_flags : Flags
test_flags = record default_flags {
  room_server_url = "https://appr.tc";
  room_id = "room";
  video_path = "video.mp4";
}

whole_call_code : main all_well (λ config. (after whole_call).exit_code) test_flags ≡ 0
unfolding main run_app_rtc_call with_validation with_severity with_ssl call_on_thread
    validate_config validate_numbers is_log_severity log_severity_from_config
whole_call_code = calls_run.2

main-eq-zero_example :
    IsValid (config_from_flags test_flags) × ((after whole_call).call_established ≡ true)
main-eq-zero_example =
    main-eq-zero parse all_well test_flags whole_call (after whole_call) calls_run.0 calls_run.1
      refl whole_call_code

run_says_goodbye_once_example :
    (byes (after whole_call).requests ≡ (
      if (after whole_call).quit
      then flag (
          reached_duration (after whole_call).terminal
          && has_joined (after whole_call).join_response)
      else flag (after whole_call).finished))
    × (leaves (after whole_call).requests ≡ (
        if (after whole_call).quit then flag (has_joined (after whole_call).join_response) else 0))
run_says_goodbye_once_example =
    run_says_goodbye_once parse test_config whole_call (after whole_call) calls_run.0
