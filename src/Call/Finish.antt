-- ===== src/Call/Finish.antt =====
-- `SetState`, the timers, and the way a call ends: `Finish`, `SendByeAndFinish`, `CompleteFinish`.
use vcpkg_webrtc_sample.Prelude.{
  ◌+◌, String, true, false, if◌then◌else◌, Option, none, some, List, ◌∷◌, Status,
}
use vcpkg_webrtc_sample.Common.Config.{to_int}
use vcpkg_webrtc_sample.Common.Join.{JoinResponse}
use vcpkg_webrtc_sample.Peer.Api.{PeerApi}
use vcpkg_webrtc_sample.Call.Types.{
  CallState, connected_state, stopping, finished_state, TerminalReason, local_duration_reached,
  exit_code_for_reason,
}
use vcpkg_webrtc_sample.Call.State.{
  Call, SendCallback, after_bye, Request, send_to_room, send_web_socket_message, close_signaling,
}

-- The request of `CompleteFinish`, if there is a join response.
unfoldable pub close_requests : Option JoinResponse → List Request → List Request
close_requests none rs = rs
close_requests (some jr) rs = close_signaling jr ∷ rs

-- `BuildByeMessage`.
abbrev pub bye_message : String
bye_message = "{\"type\":\"bye\"}"

module _ {api : PeerApi} where
  -- The trace line aside, setting the state that is set already changes nothing.
  abbrev pub set_state : CallState → Call api → Call api
  set_state s c = record c { state = s }

  abbrev pub request : Request → Call api → Call api
  request r c = record c { requests = r ∷ c.requests }

  abbrev pub schedule_startup_timeout : Call api → Call api
  schedule_startup_timeout c =
      let generation = c.startup_timeout_generation + 1 in
      record c {
        startup_timeout_generation = generation;
        startup_timers = generation ∷ c.startup_timers;
      }

  abbrev pub cancel_startup_timeout : Call api → Call api
  cancel_startup_timeout c = record c {
    startup_timeout_generation = c.startup_timeout_generation + 1;
  }

  abbrev pub schedule_call_duration_timer : Call api → Call api
  schedule_call_duration_timer c =
      let generation = c.call_duration_generation + 1 in
      record c {
        call_duration_generation = generation;
        duration_timers = generation ∷ c.duration_timers;
      }

  abbrev pub cancel_call_duration_timer : Call api → Call api
  cancel_call_duration_timer c = record c {
    call_duration_generation = c.call_duration_generation + 1;
  }

  -- A repeating task that runs already is left alone.
  abbrev pub start_stats_timer : Call api → Call api
  start_stats_timer c = record c { stats_running = true }

  abbrev pub stop_stats_timer : Call api → Call api
  stop_stats_timer c = record c { stats_running = false }

  unfoldable pub complete_finish : TerminalReason → Status → Call api → Call api
  unfolding close_requests
  complete_finish reason status c = record c {
    terminal = some (reason, status);
    peer = api.close c.peer;
    requests = close_requests c.join_response c.requests;
    exit_code = to_int (exit_code_for_reason reason);
    state = finished_state;
    quit = true;
  }

  -- Where a payload goes: the initiator posts it to the room, the other side uses the web socket.
  abbrev pub send_payload : JoinResponse → String → SendCallback → Call api → Call api
  send_payload jr payload callback c =
      request
        (if jr.is_initiator
          then send_to_room c.config.room_server_url jr.room_id jr.client_id payload callback
          else send_web_socket_message payload callback)
        c

  -- The callback goes on with `CompleteFinish` in any case.
  unfoldable pub send_bye_and_finish : JoinResponse → Call api → Call api
  send_bye_and_finish jr c =
      let c' = send_payload jr bye_message after_bye c in
      record c' { bye_callbacks = c'.bye_callbacks + 1 }

  -- The part of `Finish` after the flags and the timers. Its `join_response_.has_value()` is the
  -- match on the response.
  unfoldable pub end_call : TerminalReason → Status → Option JoinResponse → Call api → Call api
  unfolding complete_finish send_bye_and_finish
  end_call local_duration_reached status (some jr) c = send_bye_and_finish jr c
  end_call reason status jr c = complete_finish reason status c

  unfoldable pub finish : TerminalReason → Status → Call api → Call api
  unfolding end_call
  finish reason status c =
      if c.finished
      then c
      else let c' = set_state stopping (record c { finished = true }) in
        let c' = cancel_call_duration_timer (cancel_startup_timeout c') in
        end_call reason status c'.join_response (stop_stats_timer c')

  unfoldable pub maybe_mark_call_established : Call api → Call api
  maybe_mark_call_established c =
      if c.call_established
      then c
      else if c.peer_connected
      then if c.remote_media_seen
        then schedule_call_duration_timer (
            set_state connected_state
              (cancel_startup_timeout (record c { call_established = true })))
        else c
      else c
