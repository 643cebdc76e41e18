-- ===== src/Call/Settled/Handlers.antt =====
-- The callbacks leave nothing to do that no action in flight will come back to.
use vcpkg_webrtc_sample.Prelude.{
  ℕ, suc, ◌≡◌, refl, false, Option, none, some, String, Crashes, Error, Result, ok, err, Status,
  Keeps, >>=-Keeps, >>=-Keeps_both, if_cases, ◌&&◌, not, arith,
}
use vcpkg_webrtc_sample.Common.Join.{JoinResponse}
use vcpkg_webrtc_sample.Common.Message.{SignalingMessage}
use vcpkg_webrtc_sample.Peer.Api.{PeerApi}
use vcpkg_webrtc_sample.Call.Types.{media_error, peer_connection_error, signaling_error}
use vcpkg_webrtc_sample.Call.State.{Call}
use vcpkg_webrtc_sample.Call.Finish.{finish, complete_finish}
use vcpkg_webrtc_sample.Call.Queue.{parse_messages}
use vcpkg_webrtc_sample.Call.Handlers.{
  on_stats_timer, start_media, queue_join_messages, initialized, join_completed, on_join_complete,
  web_socket_opened, on_web_socket_open, registered, on_register_complete,
  on_inbound_signaling_message, on_description_sent, on_candidate_sent, on_signaling_error,
  on_bye_sent,
}
use vcpkg_webrtc_sample.Call.Settled.{Boot, Settled, finish-Settled}
use vcpkg_webrtc_sample.Call.Settled.Pump.{pump-Settled}

module _ {api : PeerApi} where
  fail-Settled : (s : Status) (c : Call api) → Boot c → Settled (finish signaling_error s c)
  fail-Settled s c v = finish-Settled signaling_error s c v

  pub stats_timer-Settled : (c : Call api) → Settled c → Settled (on_stats_timer c)
  unfolding on_stats_timer
  stats_timer-Settled c v = if_cases Settled (c.stats_running && not c.finished) (λ _. v) (λ _. v)

  -- Before it has registered, the call does not negotiate: whatever waits may wait.
  abbrev Unready : Call api → Type 0
  Unready c = (c.negotiation_ready ≡ false) × Boot c

  module _ (parse : String → Crashes (Result SignalingMessage)) where
    start_media-Settled :
        (jr : JoinResponse) (r : Status × api.State) (c : Call api)
        → Unready c
        → Keeps Settled (start_media parse jr r c)
    unfolding start_media queue_join_messages
    start_media-Settled jr (ok _, p) c v =
        >>=-Keeps_both Unready Settled (queue_join_messages parse jr (record c { peer = p })) _
          (>>=-Keeps Unready (parse_messages parse jr.messages) _ (λ ms. v))
          (λ d w. (w.1, ground arith))
    start_media-Settled jr (err e, p) c v = finish-Settled media_error _ (record c { peer = p }) v.1

    initialized-Settled :
        (jr : JoinResponse) (r : Status × api.State) (c : Call api)
        → Unready c
        → Keeps Settled (initialized parse jr r c)
    unfolding initialized
    initialized-Settled jr (err e, p) c v =
        finish-Settled peer_connection_error _ (record c { peer = p }) v.1
    initialized-Settled jr (ok _, p) c v =
        >>=-Keeps Settled (api.start_media p) _
          (λ r. start_media-Settled jr r (record c { peer = p }) v)

    join_completed-Settled :
        (r : Result JoinResponse) (k : ℕ) (c : Call api)
        → c.join_callbacks ≡ suc k
        → Boot c
        → Keeps Settled (join_completed parse r (record c { join_callbacks = k }))
    unfolding join_completed
    join_completed-Settled (err e) k c b v =
        fail-Settled _ (record c { join_callbacks = k }) (ground arith)
    join_completed-Settled (ok jr) k c b v =
        let c' = record c { join_callbacks = k; join_response = some jr } in
        >>=-Keeps Settled (api.initialize jr c.peer) _
          (λ r. initialized-Settled jr r c' (ground arith, ground arith))

    pub join_complete-Settled :
        (r : Result JoinResponse) (k : ℕ) (c : Call api)
        → c.join_callbacks ≡ suc k
        → Settled c
        → Keeps Settled (on_join_complete parse r (record c { join_callbacks = k }))
    unfolding on_join_complete
    join_complete-Settled r k c b v =
        if_cases (Keeps Settled) c.finished (λ _. (ground arith, v.1))
          (λ _. join_completed-Settled r k c b v.0)

  web_socket_opened-Settled :
      (j : Option JoinResponse) (c : Call api)
      → c.join_response ≡ j
      → Settled c
      → Settled (web_socket_opened j c)
  unfolding web_socket_opened
  web_socket_opened-Settled none c e v = v
  web_socket_opened-Settled (some jr) c e v = (ground arith, v.1)

  pub web_socket_open-Settled : (c : Call api) → Settled c → Settled (on_web_socket_open c)
  unfolding on_web_socket_open
  web_socket_open-Settled c v =
      if_cases Settled c.finished (λ _. v) (λ _. web_socket_opened-Settled c.join_response c refl v)

  registered-Settled :
      (s : Status) (k : ℕ) (c : Call api)
      → c.register_callbacks ≡ suc k
      → Boot c
      → Keeps Settled (registered s (record c { register_callbacks = k }))
  unfolding registered
  registered-Settled (err e) k c b v =
      fail-Settled _ (record c { register_callbacks = k }) (ground arith)
  registered-Settled (ok _) k c b v = pump-Settled _ (ground arith)

  pub register_complete-Settled :
      (s : Status) (k : ℕ) (c : Call api)
      → c.register_callbacks ≡ suc k
      → Settled c
      → Keeps Settled (on_register_complete s (record c { register_callbacks = k }))
  unfolding on_register_complete
  register_complete-Settled s k c b v =
      if_cases (Keeps Settled) c.finished (λ _. (ground arith, v.1))
        (λ _. registered-Settled s k c b v.0)

  pub inbound-Settled :
      (m : SignalingMessage) (c : Call api)
      → Settled c
      → Keeps Settled (on_inbound_signaling_message m c)
  unfolding on_inbound_signaling_message
  inbound-Settled m c v = if_cases (Keeps Settled) c.finished (λ _. v) (λ _. pump-Settled _ v.0)

  pub description_sent-Settled :
      (s : Status) (c : Call api) → Boot c → Keeps Settled (on_description_sent s c)
  unfolding on_description_sent
  description_sent-Settled (err e) c v = fail-Settled _ _ v
  description_sent-Settled (ok _) c v =
      pump-Settled (record c { signaling_action_in_flight = false }) v

  pub candidate_sent-Settled :
      (s : Status) (c : Call api) → Settled c → Settled (on_candidate_sent s c)
  unfolding on_candidate_sent
  candidate_sent-Settled (ok _) c v = v
  candidate_sent-Settled (err e) c v = fail-Settled _ c v.0

  pub signaling_error-Settled :
      (e : Error) (c : Call api) → Settled c → Settled (on_signaling_error e c)
  unfolding on_signaling_error
  signaling_error-Settled e c v = if_cases Settled c.finished (λ _. v) (λ _. fail-Settled _ c v.0)

  pub bye_sent-Settled : (c : Call api) → Settled c → Settled (on_bye_sent c)
  unfolding on_bye_sent complete_finish
  bye_sent-Settled c v = v
