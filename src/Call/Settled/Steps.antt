-- ===== src/Call/Settled/Steps.antt =====
-- What waits, along a whole schedule.
use vcpkg_webrtc_sample.Prelude.{
  ℕ, ◌≡◌, true, false, Option, none, some, String, List, [], ◌∷◌, Crashes, Result, ok, err, Keeps,
  >>=-Keeps, >>=-Keeps_both, if_cases, ◌&&◌, ◌==◌, not, arith,
}
use vcpkg_webrtc_sample.Common.Config.{AppConfig}
use vcpkg_webrtc_sample.Common.Join.{JoinResponse}
use vcpkg_webrtc_sample.Common.Message.{SignalingMessage}
use vcpkg_webrtc_sample.Peer.Api.{
  PeerApi, Notice, description_done, answer_done, local_message, connection_changed, remote_media,
  peer_error,
}
use vcpkg_webrtc_sample.Call.Types.{peer_connection_error, startup_timeout, local_duration_reached}
use vcpkg_webrtc_sample.Call.State.{Call}
use vcpkg_webrtc_sample.Call.Handlers.{
  start, notify_all, notify, on_description_done, on_answer_done, send_local_description,
  send_description, send_candidate, on_local_signaling_message, on_peer_connection_changed,
  on_remote_media_seen, on_peer_connection_error, on_startup_timer, on_duration_timer,
}
use vcpkg_webrtc_sample.Call.Run.{Event, peer_event, deliver, remove_first, run}
use vcpkg_webrtc_sample.Call.Run.Rules.{StepRules, run-Keeps}
use vcpkg_webrtc_sample.Call.Settled.{initiates, Settled, finish-Settled, mark-Settled}
use vcpkg_webrtc_sample.Call.Settled.Pump.{action_failed-Settled, pump-Settled}
use vcpkg_webrtc_sample.Call.Settled.Handlers.{
  stats_timer-Settled, join_complete-Settled, web_socket_open-Settled, register_complete-Settled,
  inbound-Settled, description_sent-Settled, candidate_sent-Settled, signaling_error-Settled,
  bye_sent-Settled,
}

module _ {api : PeerApi} where
  send_description-Settled :
      (j : Option JoinResponse) (payload : String) (c : Call api)
      → Settled c
      → Keeps Settled (send_description j payload c)
  unfolding send_description
  send_description-Settled none payload c v = tt
  send_description-Settled (some jr) payload c v = v

  send_candidate-Settled :
      (j : Option JoinResponse) (payload : String) (c : Call api)
      → Settled c
      → Settled (send_candidate j payload c)
  unfolding send_candidate
  send_candidate-Settled none payload c v = v
  send_candidate-Settled (some jr) payload c v = v

  notify-Settled : (n : Notice) (c : Call api) → Settled c → Keeps Settled (notify n c)
  unfolding notify on_description_done on_answer_done send_local_description
      on_local_signaling_message on_peer_connection_changed on_remote_media_seen
      on_peer_connection_error
  notify-Settled (description_done (err e)) c v = action_failed-Settled e c v.0
  notify-Settled (description_done (ok payload)) c v =
      send_description-Settled c.join_response payload c v
  notify-Settled (answer_done (err e)) c v = action_failed-Settled e c v.0
  notify-Settled (answer_done (ok _)) c v =
      pump-Settled (record c { signaling_action_in_flight = false }) v.0
  notify-Settled (local_message payload) c v =
      if_cases Settled c.finished (λ _. v) (λ _. send_candidate-Settled c.join_response payload c v)
  notify-Settled (connection_changed b) c v =
      if_cases Settled c.finished (λ _. v) (λ _. mark-Settled (record c { peer_connected = b }) v)
  notify-Settled remote_media c v =
      if_cases Settled c.finished (λ _. v)
        (λ _. mark-Settled (record c { remote_media_seen = true }) v)
  notify-Settled (peer_error e) c v =
      if_cases Settled c.finished (λ _. v) (λ _. finish-Settled peer_connection_error _ c v.0)

  notify_all-Settled :
      (ns : List Notice) (c : Call api) → Settled c → Keeps Settled (notify_all ns c)
  unfolding notify_all
  notify_all-Settled [] c v = v
  notify_all-Settled (n ∷ ns) c v =
      >>=-Keeps_both Settled Settled (notify n c) (notify_all ns) (notify-Settled n c v)
        (notify_all-Settled ns)

  startup_timer-Settled :
      (g : ℕ) (c : Call api)
      → Settled c
      → Settled (on_startup_timer g (record c { startup_timers = remove_first g c.startup_timers }))
  unfolding on_startup_timer
  startup_timer-Settled g c v =
      if_cases Settled c.finished (λ _. v)
        (λ _.
          if_cases Settled (g == c.startup_timeout_generation && not c.call_established)
            (λ _. finish-Settled startup_timeout _ _ v.0) (λ _. v))

  duration_timer-Settled :
      (g : ℕ) (c : Call api)
      → Settled c
      → Settled
          (on_duration_timer g (record c { duration_timers = remove_first g c.duration_timers }))
  unfolding on_duration_timer
  duration_timer-Settled g c v =
      if_cases Settled c.finished (λ _. v)
        (λ _.
          if_cases Settled (g == c.call_duration_generation && c.call_established)
            (λ _. finish-Settled local_duration_reached _ _ v.0) (λ _. v))

  module _ (parse : String → Crashes (Result SignalingMessage)) where
    peer_event-Settled :
        (e : api.Event) (c : Call api) → Settled c → Keeps Settled (deliver parse (peer_event e) c)
    unfolding deliver
    peer_event-Settled e c v =
        >>=-Keeps Settled (api.handle e c.peer) _
          (λ r. notify_all-Settled r.1 (record c { peer = r.0 }) v)

    rules : StepRules {api = api} parse Settled
    rules = record {
      join_rule = join_complete-Settled parse;
      register_rule = register_complete-Settled;
      description_rule =
          λ s k c b v. description_sent-Settled s (record c { description_callbacks = k }) v.0;
      candidate_rule =
          λ s k c b v. candidate_sent-Settled s (record c { candidate_callbacks = k }) v;
      bye_rule = λ k c q b v. bye_sent-Settled (record c { bye_callbacks = k }) v;
      startup_rule = startup_timer-Settled;
      duration_rule = duration_timer-Settled;
      stats_rule = stats_timer-Settled;
      open_rule = web_socket_open-Settled;
      inbound_rule = inbound-Settled;
      error_rule = signaling_error-Settled;
      peer_rule = peer_event-Settled;
    }

    run-Settled :
        (config : AppConfig) (es : List (Event api)) {c : Call api}
        → run parse config es ≡ some c
        → Settled c
    unfolding start
    run-Settled config es h = run-Keeps parse Settled rules config es (ground arith, ground arith) h

    -- Along every schedule, when the call has registered and has not finished, and no negotiation
    -- action is under way, no signaling message waits in the queue, and the initiator has made its
    -- offer: whatever sets the flag back, queues a message or registers runs the loop again.
    pub run_leaves_nothing :
        (config : AppConfig) (es : List (Event api)) (c : Call api)
        → run parse config es ≡ some c
        → c.finished ≡ false
        → c.negotiation_ready ≡ true
        → c.signaling_action_in_flight ≡ false
        → (c.pending_signaling_messages ≡ [])
          × (initiates c.join_response ≡ true → c.offer_started ≡ true)
    run_leaves_nothing config es c h f r i =
        let v = run-Settled config es h in (v.1.no_message f r i, v.1.offered f r i)
