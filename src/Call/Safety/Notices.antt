-- ===== src/Call/Safety/Notices.antt =====
-- Crashes and the callbacks of the peer connection client.
use vcpkg_webrtc_sample.Prelude.{
  ℕ, zero, suc, ◌≡◌, refl, sym, subst, inl, inr, Bool, true, false, Option, none, some, List, [],
  ◌∷◌, Error, ok, err, Returns, >>=-Returns, Bool-cases, if_cases, arith, String,
}
use vcpkg_webrtc_sample.Common.Message.{SignalingMessage}
use vcpkg_webrtc_sample.Common.Join.{JoinResponse}
use vcpkg_webrtc_sample.Peer.Api.{
  PeerApi, PeerLaws, Notice, description_done, answer_done, local_message, connection_changed,
  remote_media, peer_error, completions,
}
use vcpkg_webrtc_sample.Call.Types.{peer_connection_error}
use vcpkg_webrtc_sample.Call.State.{Call}
use vcpkg_webrtc_sample.Call.Pump.{action_failed, pump_loop, pump, pump_signaling_messages}
use vcpkg_webrtc_sample.Call.Handlers.{
  notify_all, notify, on_description_done, on_answer_done, send_local_description, send_description,
  send_candidate, on_local_signaling_message, on_peer_connection_changed, on_remote_media_seen,
  on_peer_connection_error,
}
use vcpkg_webrtc_sample.Call.Safety.{Safe, finish-Safe, maybe_mark-Safe}
use vcpkg_webrtc_sample.Call.Safety.Pump.{pump-Safe}

-- A finished call does not pump.
pump_loop_finished :
    {api : PeerApi} (initiator : Bool) (ms : List SignalingMessage) (c : Call api)
    → c.finished ≡ true
    → pump_loop initiator ms c ≡ some c
unfolding pump_loop
pump_loop_finished initiator [] c f = ground arith
pump_loop_finished initiator (m ∷ ms) c f = ground arith

pump_finished :
    {api : PeerApi} (c : Call api) → c.finished ≡ true → pump_signaling_messages c ≡ some c
unfolding pump_signaling_messages
pump_finished c f = go c.join_response
  where
    go : (j : Option JoinResponse) → pump j c ≡ some c
    go none = refl
    go (some jr) = pump_loop_finished jr.is_initiator c.pending_signaling_messages c f

module _ {api : PeerApi} (laws : PeerLaws api) where
  -- The action that was under way is over.
  action_over :
      (n : ℕ) (c : Call api)
      → Safe laws (suc n) c
      → Safe laws n (record c { signaling_action_in_flight = false })
  action_over n c v = ground arith

  action_failed-Safe :
      (n : ℕ) (e : Error) (c : Call api) → Safe laws (suc n) c → Safe laws n (action_failed e c)
  action_failed-Safe n e c v =
      finish-Safe laws n peer_connection_error _ (record c { signaling_action_in_flight = false })
        (action_over n c v)

  answered-Safe :
      (n : ℕ) (c : Call api)
      → Safe laws (suc n) c
      → Returns
          (Safe laws n)
          (pump_signaling_messages (record c { signaling_action_in_flight = false }))
  answered-Safe n c v = elim (Bool-cases c.quit) [
    | inl q ↦
        subst (Returns (Safe laws n))
          (sym
            (pump_finished (record c { signaling_action_in_flight = false }) (v.quit_finished q)))
          (action_over n c v)
    | inr q ↦
        subst
          (λ k.
            Returns (Safe laws k)
              (pump_signaling_messages (record c { signaling_action_in_flight = false })))
          (last q) (pump-Safe laws (record c { signaling_action_in_flight = false }) (ground arith))
  ]
    where
      last : c.quit ≡ false → zero ≡ n
      last q = ground arith

  send_description-Safe :
      (n : ℕ) (j : Option JoinResponse) (payload : String) (c : Call api)
      → c.join_response ≡ j
      → Safe laws (suc n) c
      → Returns (Safe laws n) (send_description j payload c)
  unfolding send_description
  send_description-Safe n none payload c e v = ground arith
  send_description-Safe n (some jr) payload c e v = ground arith

  send_candidate-Safe :
      (n : ℕ) (j : Option JoinResponse) (payload : String) (c : Call api)
      → Safe laws n c
      → Safe laws n (send_candidate j payload c)
  unfolding send_candidate
  send_candidate-Safe n none payload c v = v
  send_candidate-Safe n (some jr) payload c v = v

  notify-Safe :
      (x : Notice) (ns : List Notice) (c : Call api)
      → Safe laws (completions (x ∷ ns)) c
      → Returns (Safe laws (completions ns)) (notify x c)
  unfolding notify on_description_done on_answer_done send_local_description
      on_local_signaling_message on_peer_connection_changed on_remote_media_seen
      on_peer_connection_error
  notify-Safe (description_done (err e)) ns c v = action_failed-Safe (completions ns) e c v
  notify-Safe (description_done (ok payload)) ns c v =
      send_description-Safe (completions ns) c.join_response payload c refl v
  notify-Safe (answer_done (err e)) ns c v = action_failed-Safe (completions ns) e c v
  notify-Safe (answer_done (ok _)) ns c v = answered-Safe (completions ns) c v
  notify-Safe (local_message payload) ns c v =
      if_cases (Safe laws (completions ns)) c.finished (λ _. v)
        (λ _. send_candidate-Safe (completions ns) c.join_response payload c v)
  notify-Safe (connection_changed b) ns c v =
      if_cases (Safe laws (completions ns)) c.finished (λ _. v)
        (λ _. maybe_mark-Safe laws (completions ns) (record c { peer_connected = b }) v)
  notify-Safe remote_media ns c v =
      if_cases (Safe laws (completions ns)) c.finished (λ _. v)
        (λ _. maybe_mark-Safe laws (completions ns) (record c { remote_media_seen = true }) v)
  notify-Safe (peer_error e) ns c v =
      if_cases (Safe laws (completions ns)) c.finished (λ _. v)
        (λ _. finish-Safe laws (completions ns) peer_connection_error _ c v)

  pub notify_all-Safe :
      (ns : List Notice) (c : Call api)
      → Safe laws (completions ns) c
      → Returns (Safe laws 0) (notify_all ns c)
  unfolding notify_all
  notify_all-Safe [] c v = v
  notify_all-Safe (n ∷ ns) c v =
      >>=-Returns (Safe laws (completions ns)) (Safe laws 0) (notify n c) (notify_all ns)
        (notify-Safe n ns c v) (notify_all-Safe ns)
