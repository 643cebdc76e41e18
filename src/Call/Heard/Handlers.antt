-- ===== src/Call/Heard/Handlers.antt =====
-- The callbacks on the signaling thread that do not bring messages of the other side.
use vcpkg_webrtc_sample.Prelude.{
  ℕ, ◌==◌, ◌&&◌, not, true, false, Option, none, some, String, List, [], ◌∷◌, Error, err, ok,
  Status, if_cases, Keeps, >>=-Keeps_both,
}
use vcpkg_webrtc_sample.Common.Message.{SignalingMessage}
use vcpkg_webrtc_sample.Common.Join.{JoinResponse}
use vcpkg_webrtc_sample.Peer.Api.{
  PeerApi, Notice, description_done, answer_done, local_message, connection_changed, remote_media,
  peer_error,
}
use vcpkg_webrtc_sample.Call.Types.{
  signaling_error, peer_connection_error, startup_timeout, local_duration_reached,
}
use vcpkg_webrtc_sample.Call.State.{Call}
use vcpkg_webrtc_sample.Call.Finish.{
  finish, complete_finish, start_stats_timer, maybe_mark_call_established,
}
use vcpkg_webrtc_sample.Call.Handlers.{
  on_startup_timer, on_duration_timer, on_stats_timer, web_socket_opened, on_web_socket_open,
  registered, on_register_complete, on_description_sent, on_candidate_sent, on_signaling_error,
  on_bye_sent, notify_all, notify, on_description_done, on_answer_done, send_local_description,
  send_description, send_candidate, on_local_signaling_message, on_peer_connection_changed,
  on_remote_media_seen, on_peer_connection_error,
}
use vcpkg_webrtc_sample.Call.Heard.{listening, Heard}
use vcpkg_webrtc_sample.Call.Heard.Pump.{
  Heard-Partly, finish-Heard, action_failed-Heard, pump-Heard,
}

module _ (api : PeerApi) (n : ℕ) (arrived : List SignalingMessage) where
  abbrev Good : Call (listening api) → Type 0
  Good = Heard api n arrived

  -- A failure that ends the call.
  signaling_failed-Heard :
      (s : Status) (c : Call (listening api)) → Good c → Good (finish signaling_error s c)
  signaling_failed-Heard s c h =
      finish-Heard api n arrived signaling_error s c (Heard-Partly api n arrived c h)

  peer_failed-Heard :
      (e : Error) (c : Call (listening api))
      → Good c
      → Good (finish peer_connection_error (err e) c)
  peer_failed-Heard e c h =
      finish-Heard api n arrived peer_connection_error _ c (Heard-Partly api n arrived c h)

  action_failed-Good :
      (e : Error) (c : Call (listening api)) → Good c → Keeps Good (on_description_done (err e) c)
  unfolding on_description_done
  action_failed-Good e c h = action_failed-Heard api n arrived e c (Heard-Partly api n arrived c h)

  pub startup_timer-Heard :
      (g : ℕ) (c : Call (listening api)) → Good c → Good (on_startup_timer g c)
  unfolding on_startup_timer
  startup_timer-Heard g c h =
      if_cases Good c.finished (λ _. h)
        (λ _.
          if_cases Good (g == c.startup_timeout_generation && not c.call_established)
            (λ _. finish-Heard api n arrived startup_timeout _ c (Heard-Partly api n arrived c h))
            (λ _. h))

  pub duration_timer-Heard :
      (g : ℕ) (c : Call (listening api)) → Good c → Good (on_duration_timer g c)
  unfolding on_duration_timer
  duration_timer-Heard g c h =
      if_cases Good c.finished (λ _. h)
        (λ _.
          if_cases Good (g == c.call_duration_generation && c.call_established)
            (λ _.
              finish-Heard api n arrived local_duration_reached _ c
                (Heard-Partly api n arrived c h))
            (λ _. h))

  pub bye_sent-Heard : (c : Call (listening api)) → Good c → Good (on_bye_sent c)
  unfolding on_bye_sent complete_finish
  bye_sent-Heard c h = record { joins_left = h.joins_left; is_part = h.is_part; is_all = λ f q. cc }

  pub stats_timer-Heard : (c : Call (listening api)) → Good c → Good (on_stats_timer c)
  unfolding on_stats_timer
  stats_timer-Heard c h = if_cases Good (c.stats_running && not c.finished) (λ _. h) (λ _. h)

  web_socket_opened-Heard :
      (j : Option JoinResponse) (c : Call (listening api)) → Good c → Good (web_socket_opened j c)
  unfolding web_socket_opened
  web_socket_opened-Heard none c h = h
  web_socket_opened-Heard (some jr) c h = h

  pub web_socket_open-Heard : (c : Call (listening api)) → Good c → Good (on_web_socket_open c)
  unfolding on_web_socket_open
  web_socket_open-Heard c h =
      if_cases Good c.finished (λ _. h) (λ _. web_socket_opened-Heard c.join_response c h)

  registered-Heard : (s : Status) (c : Call (listening api)) → Good c → Keeps Good (registered s c)
  unfolding registered
  registered-Heard (err e) c h = signaling_failed-Heard _ c h
  registered-Heard (ok _) c h =
      pump-Heard api n arrived (start_stats_timer (record c { negotiation_ready = true })) h

  pub register_complete-Heard :
      (s : Status) (c : Call (listening api)) → Good c → Keeps Good (on_register_complete s c)
  unfolding on_register_complete
  register_complete-Heard s c h =
      if_cases (Keeps Good) c.finished (λ _. h) (λ _. registered-Heard s c h)

  pub description_sent-Heard :
      (s : Status) (c : Call (listening api)) → Good c → Keeps Good (on_description_sent s c)
  unfolding on_description_sent
  description_sent-Heard (err e) c h = signaling_failed-Heard _ _ h
  description_sent-Heard (ok _) c h =
      pump-Heard api n arrived (record c { signaling_action_in_flight = false }) h

  pub candidate_sent-Heard :
      (s : Status) (c : Call (listening api)) → Good c → Good (on_candidate_sent s c)
  unfolding on_candidate_sent
  candidate_sent-Heard (ok _) c h = h
  candidate_sent-Heard (err e) c h = signaling_failed-Heard _ c h

  pub signaling_error-Heard :
      (e : Error) (c : Call (listening api)) → Good c → Good (on_signaling_error e c)
  unfolding on_signaling_error
  signaling_error-Heard e c h =
      if_cases Good c.finished (λ _. h) (λ _. signaling_failed-Heard _ c h)

  send_description-Heard :
      (j : Option JoinResponse) (payload : String) (c : Call (listening api))
      → Good c
      → Keeps Good (send_description j payload c)
  unfolding send_description
  send_description-Heard none payload c h = tt
  send_description-Heard (some jr) payload c h = h

  send_candidate-Heard :
      (j : Option JoinResponse) (payload : String) (c : Call (listening api))
      → Good c
      → Good (send_candidate j payload c)
  unfolding send_candidate
  send_candidate-Heard none payload c h = h
  send_candidate-Heard (some jr) payload c h = h

  mark-Heard : (c : Call (listening api)) → Good c → Good (maybe_mark_call_established c)
  unfolding maybe_mark_call_established
  mark-Heard c h =
      if_cases Good c.call_established (λ _. h)
        (λ _.
          if_cases Good c.peer_connected (λ _. if_cases Good c.remote_media_seen (λ _. h) (λ _. h))
            (λ _. h))

  notify-Heard : (x : Notice) (c : Call (listening api)) → Good c → Keeps Good (notify x c)
  unfolding notify on_description_done on_answer_done send_local_description
      on_local_signaling_message on_peer_connection_changed on_remote_media_seen
      on_peer_connection_error
  notify-Heard (description_done (err e)) c h = action_failed-Good e c h
  notify-Heard (description_done (ok payload)) c h =
      send_description-Heard c.join_response payload c h
  notify-Heard (answer_done (err e)) c h = action_failed-Good e c h
  notify-Heard (answer_done (ok _)) c h =
      pump-Heard api n arrived (record c { signaling_action_in_flight = false }) h
  notify-Heard (local_message payload) c h =
      if_cases Good c.finished (λ _. h) (λ _. send_candidate-Heard c.join_response payload c h)
  notify-Heard (connection_changed b) c h =
      if_cases Good c.finished (λ _. h) (λ _. mark-Heard (record c { peer_connected = b }) h)
  notify-Heard remote_media c h =
      if_cases Good c.finished (λ _. h) (λ _. mark-Heard (record c { remote_media_seen = true }) h)
  notify-Heard (peer_error e) c h = if_cases Good c.finished (λ _. h) (λ _. peer_failed-Heard e c h)

  pub notify_all-Heard :
      (ns : List Notice) (c : Call (listening api)) → Good c → Keeps Good (notify_all ns c)
  unfolding notify_all
  notify_all-Heard [] c h = h
  notify_all-Heard (x ∷ ns) c h =
      >>=-Keeps_both Good Good (notify x c) (notify_all ns) (notify-Heard x c h)
        (notify_all-Heard ns)
