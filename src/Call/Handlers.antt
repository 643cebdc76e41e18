-- ===== src/Call/Handlers.antt =====
-- The callbacks of `CallController`: what runs on the signaling thread.
use vcpkg_webrtc_sample.Prelude.{
  ℕ, ◌+◌, ◌==◌, String, Bool, true, false, if◌then◌else◌, ◌&&◌, not, Option, none, some, List, [],
  ◌∷◌, ◌++◌, Crashes, Error, Result, ok, err, Status, ok_status, fail, ◌>>=◌, deadline_exceeded,
}
use vcpkg_webrtc_sample.Common.Message.{SignalingMessage}
use vcpkg_webrtc_sample.Common.Join.{JoinResponse}
use vcpkg_webrtc_sample.Peer.Api.{
  PeerApi, Notice, description_done, answer_done, local_message, connection_changed, remote_media,
  peer_error,
}
use vcpkg_webrtc_sample.Call.Types.{
  joining_room, connecting_web_socket, registering, local_duration_reached, startup_timeout,
  signaling_error, peer_connection_error, media_error,
}
use vcpkg_webrtc_sample.Call.State.{
  Call, after_description, after_candidate, join_room, connect_web_socket, register,
}
use vcpkg_webrtc_sample.Call.Queue.{parse_messages, stable_sort}
use vcpkg_webrtc_sample.Call.Finish.{
  set_state, request, schedule_startup_timeout, start_stats_timer, complete_finish, send_payload,
  finish, maybe_mark_call_established,
}
use vcpkg_webrtc_sample.Call.Pump.{action_failed, pump_signaling_messages}

module _ {api : PeerApi} where
  unfoldable pub start : Call api → Call api
  start c =
      let c' = schedule_startup_timeout (set_state joining_room c) in
      let c' = request (join_room c'.config.room_server_url c'.config.room_id) c' in
      record c' { join_callbacks = c'.join_callbacks + 1 }

  unfoldable pub on_startup_timer : ℕ → Call api → Call api
  on_startup_timer generation c =
      if c.finished
      then c
      else if generation == c.startup_timeout_generation && not c.call_established
      then finish startup_timeout (fail deadline_exceeded "timed out waiting for call completion") c
      else c

  unfoldable pub on_duration_timer : ℕ → Call api → Call api
  on_duration_timer generation c =
      if c.finished
      then c
      else if generation == c.call_duration_generation && c.call_established
      then finish local_duration_reached ok_status c
      else c

  -- The repeating task runs only between `StartStatsTimer` and `StopStatsTimer`.
  unfoldable pub on_stats_timer : Call api → Call api
  on_stats_timer c =
      if c.stats_running && not c.finished then record c { peer = api.log_stats c.peer } else c

  -- The rest of `OnJoinComplete`, behind `QueueJoinMessages`.
  abbrev connect : JoinResponse → Call api → Call api
  connect jr c = request (connect_web_socket jr) (set_state connecting_web_socket c)

  module _ (parse : String → Crashes (Result SignalingMessage)) where
    unfoldable pub queue_join_messages : JoinResponse → Call api → Crashes (Call api)
    queue_join_messages jr c = do
      ms ← parse_messages parse jr.messages
      let waiting = c.pending_signaling_messages ++ stable_sort ms
      some (record c { pending_signaling_messages = waiting })

    unfoldable pub start_media : JoinResponse → Status × api.State → Call api → Crashes (Call api)
    unfolding queue_join_messages
    start_media jr (ok _, p) c =
        queue_join_messages jr (record c { peer = p }) >>= λ c'. some (connect jr c')
    start_media jr (err e, p) c = some (finish media_error (err e) (record c { peer = p }))

    unfoldable pub initialized : JoinResponse → Status × api.State → Call api → Crashes (Call api)
    unfolding start_media
    initialized jr (err e, p) c =
        some (finish peer_connection_error (err e) (record c { peer = p }))
    initialized jr (ok _, p) c = api.start_media p >>= λ r. start_media jr r (record c { peer = p })

    unfoldable pub join_completed : Result JoinResponse → Call api → Crashes (Call api)
    unfolding initialized
    join_completed (err e) c = some (finish signaling_error (err e) c)
    join_completed (ok jr) c =
        api.initialize jr c.peer >>= λ r. initialized jr r (record c { join_response = some jr })

    unfoldable pub on_join_complete : Result JoinResponse → Call api → Crashes (Call api)
    unfolding join_completed
    on_join_complete r c = if c.finished then some c else join_completed r c

  unfoldable pub web_socket_opened : Option JoinResponse → Call api → Call api
  web_socket_opened none c = c
  web_socket_opened (some jr) c =
      let c' = request (register jr) (set_state registering c) in
      record c' { register_callbacks = c'.register_callbacks + 1 }

  unfoldable pub on_web_socket_open : Call api → Call api
  unfolding web_socket_opened
  on_web_socket_open c = if c.finished then c else web_socket_opened c.join_response c

  unfoldable pub registered : Status → Call api → Crashes (Call api)
  registered (err e) c = some (finish signaling_error (err e) c)
  registered (ok _) c =
      pump_signaling_messages (start_stats_timer (record c { negotiation_ready = true }))

  unfoldable pub on_register_complete : Status → Call api → Crashes (Call api)
  unfolding registered
  on_register_complete s c = if c.finished then some c else registered s c

  unfoldable pub on_inbound_signaling_message : SignalingMessage → Call api → Crashes (Call api)
  on_inbound_signaling_message m c =
      if c.finished
      then some c
      else pump_signaling_messages
          (record c { pending_signaling_messages = c.pending_signaling_messages ++ m ∷ [] })

  -- Its RTC_CHECK fails where there is no join response.
  unfoldable pub send_description : Option JoinResponse → String → Call api → Crashes (Call api)
  send_description none payload c = none
  send_description (some jr) payload c =
      let c' = send_payload jr payload after_description c in
      some (record c' { description_callbacks = c'.description_callbacks + 1 })

  unfoldable pub send_local_description : String → Call api → Crashes (Call api)
  unfolding send_description
  send_local_description payload c = send_description c.join_response payload c

  -- The callback of `SendToRoomAsync` and `SendWebSocketMessageAsync` in it.
  unfoldable pub on_description_sent : Status → Call api → Crashes (Call api)
  on_description_sent (err e) c =
      some (finish signaling_error (err e) (record c { signaling_action_in_flight = false }))
  on_description_sent (ok _) c =
      pump_signaling_messages (record c { signaling_action_in_flight = false })

  -- The callbacks of `CreateOffer` and `SetRemoteOfferAndCreateAnswer`.
  unfoldable pub on_description_done : Result String → Call api → Crashes (Call api)
  on_description_done (err e) c = some (action_failed e c)
  on_description_done (ok payload) c = send_local_description payload c

  -- The callback of `SetRemoteAnswer`.
  unfoldable pub on_answer_done : Status → Call api → Crashes (Call api)
  on_answer_done (err e) c = some (action_failed e c)
  on_answer_done (ok _) c =
      pump_signaling_messages (record c { signaling_action_in_flight = false })

  unfoldable pub send_candidate : Option JoinResponse → String → Call api → Call api
  send_candidate none payload c = c
  send_candidate (some jr) payload c =
      let c' = send_payload jr payload after_candidate c in
      record c' { candidate_callbacks = c'.candidate_callbacks + 1 }

  unfoldable pub on_local_signaling_message : String → Call api → Call api
  unfolding send_candidate
  on_local_signaling_message payload c =
      if c.finished then c else send_candidate c.join_response payload c

  unfoldable pub on_candidate_sent : Status → Call api → Call api
  on_candidate_sent (ok _) c = c
  on_candidate_sent (err e) c = finish signaling_error (err e) c

  unfoldable pub on_peer_connection_changed : Bool → Call api → Call api
  on_peer_connection_changed connected c =
      if c.finished
      then c
      else maybe_mark_call_established (record c { peer_connected = connected })

  unfoldable pub on_remote_media_seen : Call api → Call api
  on_remote_media_seen c =
      if c.finished then c else maybe_mark_call_established (record c { remote_media_seen = true })

  unfoldable pub on_signaling_error : Error → Call api → Call api
  on_signaling_error e c = if c.finished then c else finish signaling_error (err e) c

  unfoldable pub on_peer_connection_error : Error → Call api → Call api
  on_peer_connection_error e c = if c.finished then c else finish peer_connection_error (err e) c

  -- The callback of the bye, whatever came of it.
  unfoldable pub on_bye_sent : Call api → Call api
  on_bye_sent c = complete_finish local_duration_reached ok_status c

  unfoldable pub notify : Notice → Call api → Crashes (Call api)
  notify (description_done r) c = on_description_done r c
  notify (answer_done s) c = on_answer_done s c
  notify (local_message payload) c = some (on_local_signaling_message payload c)
  notify (connection_changed b) c = some (on_peer_connection_changed b c)
  notify remote_media c = some (on_remote_media_seen c)
  notify (peer_error e) c = some (on_peer_connection_error e c)

  unfoldable pub notify_all : List Notice → Call api → Crashes (Call api)
  notify_all [] c = some c
  notify_all (n ∷ ns) c = notify n c >>= notify_all ns
