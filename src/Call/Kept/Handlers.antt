-- ===== src/Call/Kept/Handlers.antt =====
-- Invariants and the callbacks on the signaling thread.
use vcpkg_webrtc_sample.Prelude.{
  not, ◌&&◌, ◌≡◌, true, false, Option, none, some, Result, err, ok, Status, Crashes, Keeps,
  >>=-Keeps, List, [], ◌∷◌, String, Error, if_cases, >>=-Keeps_both,
}
use vcpkg_webrtc_sample.Common.Message.{SignalingMessage}
use vcpkg_webrtc_sample.Common.Join.{JoinResponse}
use vcpkg_webrtc_sample.Peer.Api.{
  PeerApi, Notice, description_done, answer_done, local_message, connection_changed, remote_media,
  peer_error,
}
use vcpkg_webrtc_sample.Call.Types.{
  connecting_web_socket, registering, media_error, signaling_error, peer_connection_error,
}
use vcpkg_webrtc_sample.Call.State.{Call}
use vcpkg_webrtc_sample.Call.Queue.{parse_messages}
use vcpkg_webrtc_sample.Call.Finish.{finish, start_stats_timer}
use vcpkg_webrtc_sample.Call.Handlers.{
  on_stats_timer, start_media, queue_join_messages, initialized, join_completed, on_join_complete,
  web_socket_opened, on_web_socket_open, registered, on_register_complete,
  on_inbound_signaling_message, on_description_sent, on_candidate_sent, on_signaling_error,
  notify_all, notify, on_description_done, on_answer_done, send_local_description, send_description,
  send_candidate, on_local_signaling_message, on_peer_connection_changed, on_remote_media_seen,
  on_peer_connection_error,
}
use vcpkg_webrtc_sample.Call.Kept.{Core, core, Kept}
use vcpkg_webrtc_sample.Call.Kept.Pump.{action_failed-Kept, pump-Kept}

module _ {api : PeerApi} (P : Core → Type 0) (kept : Kept api P) where
  abbrev Good : Call api → Type 0
  Good c = P (core c)

  -- A failure that ends the call.
  signaling_failed-Kept : (s : Status) (c : Call api) → Good c → Good (finish signaling_error s c)
  signaling_failed-Kept s c v = kept.finish_kept signaling_error s c (λ h. cc) v

  pub stats_timer-Kept : (c : Call api) → Good c → Good (on_stats_timer c)
  unfolding on_stats_timer
  stats_timer-Kept c v = if_cases Good (c.stats_running && not c.finished) (λ _. v) (λ _. v)

  module _ (parse : String → Crashes (Result SignalingMessage)) where
    start_media-Kept :
        (jr : JoinResponse) (r : Status × api.State) (c : Call api)
        → c.finished ≡ false
        → Good c
        → Keeps Good (start_media parse jr r c)
    unfolding start_media queue_join_messages
    start_media-Kept jr (ok _, p) c f v =
        >>=-Keeps_both (λ d. (d.finished ≡ false) × Good d) Good
          (queue_join_messages parse jr (record c { peer = p })) _
          (>>=-Keeps (λ d. (d.finished ≡ false) × Good d) (parse_messages parse jr.messages) _
            (λ ms. (f, v)))
          (λ d w.
            kept.connect_kept jr (record d { state = connecting_web_socket })
              (kept.restate_kept connecting_web_socket d w.0 w.1))
    start_media-Kept jr (err e, p) c f v =
        kept.finish_kept media_error _ (record c { peer = p }) (λ h. cc) v

    initialized-Kept :
        (jr : JoinResponse) (r : Status × api.State) (c : Call api)
        → c.finished ≡ false
        → Good c
        → Keeps Good (initialized parse jr r c)
    unfolding initialized
    initialized-Kept jr (err e, p) c f v =
        kept.finish_kept peer_connection_error _ (record c { peer = p }) (λ h. cc) v
    initialized-Kept jr (ok _, p) c f v =
        >>=-Keeps Good (api.start_media p) _
          (λ r. start_media-Kept jr r (record c { peer = p }) f v)

    join_completed-Kept :
        (r : Result JoinResponse) (c : Call api)
        → c.finished ≡ false
        → Good c
        → Keeps Good (join_completed parse r c)
    unfolding join_completed
    join_completed-Kept (err e) c f v = signaling_failed-Kept _ c v
    join_completed-Kept (ok jr) c f v =
        let c' = record c { join_response = some jr } in
        >>=-Keeps Good (api.initialize jr c.peer) _
          (λ r. initialized-Kept jr r c' f (kept.joined_kept jr c f v))

    pub join_complete-Kept :
        (r : Result JoinResponse) (c : Call api) → Good c → Keeps Good (on_join_complete parse r c)
    unfolding on_join_complete
    join_complete-Kept r c v =
        if_cases (Keeps Good) c.finished (λ _. v) (λ f. join_completed-Kept r c f v)

  web_socket_opened-Kept :
      (j : Option JoinResponse) (c : Call api)
      → c.finished ≡ false
      → Good c
      → Good (web_socket_opened j c)
  unfolding web_socket_opened
  web_socket_opened-Kept none c f v = v
  web_socket_opened-Kept (some jr) c f v =
      kept.register_kept jr (record c { state = registering }) (kept.restate_kept registering c f v)

  pub web_socket_open-Kept : (c : Call api) → Good c → Good (on_web_socket_open c)
  unfolding on_web_socket_open
  web_socket_open-Kept c v =
      if_cases Good c.finished (λ _. v) (λ f. web_socket_opened-Kept c.join_response c f v)

  registered-Kept : (s : Status) (c : Call api) → Good c → Keeps Good (registered s c)
  unfolding registered
  registered-Kept (err e) c v = signaling_failed-Kept _ c v
  registered-Kept (ok _) c v =
      pump-Kept P kept (start_stats_timer (record c { negotiation_ready = true })) v

  pub register_complete-Kept :
      (s : Status) (c : Call api) → Good c → Keeps Good (on_register_complete s c)
  unfolding on_register_complete
  register_complete-Kept s c v =
      if_cases (Keeps Good) c.finished (λ _. v) (λ _. registered-Kept s c v)

  pub inbound-Kept :
      (m : SignalingMessage) (c : Call api) → Good c → Keeps Good (on_inbound_signaling_message m c)
  unfolding on_inbound_signaling_message
  inbound-Kept m c v = if_cases (Keeps Good) c.finished (λ _. v) (λ _. pump-Kept P kept _ v)

  pub description_sent-Kept :
      (s : Status) (c : Call api) → Good c → Keeps Good (on_description_sent s c)
  unfolding on_description_sent
  description_sent-Kept (err e) c v = signaling_failed-Kept _ _ v
  description_sent-Kept (ok _) c v =
      pump-Kept P kept (record c { signaling_action_in_flight = false }) v

  send_description-Kept :
      (j : Option JoinResponse) (payload : String) (c : Call api)
      → Good c
      → Keeps Good (send_description j payload c)
  unfolding send_description
  send_description-Kept none payload c v = tt
  send_description-Kept (some jr) payload c v = kept.description_kept jr payload c v

  pub candidate_sent-Kept : (s : Status) (c : Call api) → Good c → Good (on_candidate_sent s c)
  unfolding on_candidate_sent
  candidate_sent-Kept (ok _) c v = v
  candidate_sent-Kept (err e) c v = signaling_failed-Kept _ c v

  pub signaling_error-Kept : (e : Error) (c : Call api) → Good c → Good (on_signaling_error e c)
  unfolding on_signaling_error
  signaling_error-Kept e c v = if_cases Good c.finished (λ _. v) (λ _. signaling_failed-Kept _ c v)

  send_candidate-Kept :
      (j : Option JoinResponse) (payload : String) (c : Call api)
      → Good c
      → Good (send_candidate j payload c)
  unfolding send_candidate
  send_candidate-Kept none payload c v = v
  send_candidate-Kept (some jr) payload c v = kept.candidate_kept jr payload c v

  notify-Kept : (n : Notice) (c : Call api) → Good c → Keeps Good (notify n c)
  unfolding notify on_description_done on_answer_done send_local_description
      on_local_signaling_message on_peer_connection_changed on_remote_media_seen
      on_peer_connection_error
  notify-Kept (description_done (err e)) c v = action_failed-Kept P kept e c v
  notify-Kept (description_done (ok payload)) c v =
      send_description-Kept c.join_response payload c v
  notify-Kept (answer_done (err e)) c v = action_failed-Kept P kept e c v
  notify-Kept (answer_done (ok _)) c v =
      pump-Kept P kept (record c { signaling_action_in_flight = false }) v
  notify-Kept (local_message payload) c v =
      if_cases Good c.finished (λ _. v) (λ _. send_candidate-Kept c.join_response payload c v)
  notify-Kept (connection_changed b) c v =
      if_cases Good c.finished (λ _. v) (λ f. kept.mark_kept (record c { peer_connected = b }) f v)
  notify-Kept remote_media c v =
      if_cases Good c.finished (λ _. v)
        (λ f. kept.mark_kept (record c { remote_media_seen = true }) f v)
  notify-Kept (peer_error e) c v =
      if_cases Good c.finished (λ _. v)
        (λ _. kept.finish_kept peer_connection_error _ c (λ h. cc) v)

  pub notify_all-Kept : (ns : List Notice) (c : Call api) → Good c → Keeps Good (notify_all ns c)
  unfolding notify_all
  notify_all-Kept [] c v = v
  notify_all-Kept (n ∷ ns) c v =
      >>=-Keeps_both Good Good (notify n c) (notify_all ns) (notify-Kept n c v) (notify_all-Kept ns)
