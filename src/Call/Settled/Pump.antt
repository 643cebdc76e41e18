-- ===== src/Call/Settled/Pump.antt =====
-- The loop over the messages leaves nothing to do.
use vcpkg_webrtc_sample.Prelude.{
  ◌≡◌, refl, ap, Bool, true, false, Option, none, some, List, [], ◌∷◌, Crashes, Error, Result, ok,
  err, Status, Keeps, >>=-Keeps, if_cases, arith,
}
use vcpkg_webrtc_sample.Common.Join.{JoinResponse}
use vcpkg_webrtc_sample.Common.Message.{
  SignalingMessage, SignalingMessageType, offer, answer, candidate, bye, unknown,
}
use vcpkg_webrtc_sample.Peer.Api.{PeerApi}
use vcpkg_webrtc_sample.Call.Types.{peer_connection_error, signaling_error}
use vcpkg_webrtc_sample.Call.State.{Call}
use vcpkg_webrtc_sample.Call.Pump.{
  can_pump, begin_action, action_failed, on_bye, action_begun, candidate_added, handle_message,
  start_offer, pump_loop, pump, pump_signaling_messages,
}
use vcpkg_webrtc_sample.Call.Settled.{initiates, Boot, Settled, finish-Settled}

module _ {api : PeerApi} where
  on_bye-Settled : (c : Call api) → Boot c → Settled (on_bye c)
  unfolding on_bye
  on_bye-Settled c v =
      if_cases Settled c.call_established (λ _. finish-Settled _ _ c v)
        (λ _. finish-Settled _ _ c v)

  pub action_failed-Settled : (e : Error) (c : Call api) → Boot c → Settled (action_failed e c)
  action_failed-Settled e c v =
      finish-Settled peer_connection_error (err e) (record c { signaling_action_in_flight = false })
        v

  -- While an action is under way, what waits may wait.
  action_begun-Settled :
      (c : Call api) → Boot c → (r : Result api.State) → Settled (action_begun (begin_action c) r)
  unfolding action_begun
  action_begun-Settled c v (ok p) = (v, ground arith)
  action_begun-Settled c v (err e) = action_failed-Settled e (begin_action c) v

  candidate_added-Settled :
      (continue : Call api → Crashes (Call api)) (c : Call api)
      → ((p : api.State) → Keeps Settled (continue (record c { peer = p })))
      → Boot c
      → (r : Status × api.State) → Keeps Settled (candidate_added continue c r)
  unfolding candidate_added
  candidate_added-Settled continue c h v (ok _, p) = h p
  candidate_added-Settled continue c h v (err e, p) =
      finish-Settled peer_connection_error (err e) (record c { peer = p }) v

  handle_message-Settled :
      (k : SignalingMessageType) (m : SignalingMessage) (continue : Call api → Crashes (Call api))
      (c : Call api)
      → ((p : api.State) → Keeps Settled (continue (record c { peer = p })))
      → Boot c
      → Keeps Settled (handle_message k m continue c)
  unfolding handle_message
  handle_message-Settled bye m continue c h v = on_bye-Settled c v
  handle_message-Settled candidate m continue c h v =
      >>=-Keeps Settled (api.add_remote_candidate m c.peer) (candidate_added continue c)
        (candidate_added-Settled continue c h v)
  handle_message-Settled answer m continue c h v =
      >>=-Keeps Settled (api.set_remote_answer m c.peer) _ (action_begun-Settled c v)
  handle_message-Settled offer m continue c h v =
      >>=-Keeps Settled (api.set_remote_offer_and_create_answer m c.peer) _
        (action_begun-Settled c v)
  handle_message-Settled unknown m continue c h v = finish-Settled signaling_error _ c v

  offer_begun-Settled :
      (c : Call api) (p : api.State)
      → Boot c
      → Settled (record (begin_action c) { offer_started = true; peer = p })
  offer_begun-Settled c p v = (v, ground arith)

  -- The loop is not entered: the call is over, not ready, or waits for an action.
  stopped-Settled : (c : Call api) → Boot c → can_pump c ≡ false → Settled c
  stopped-Settled c v h = (v, ground arith)

  all_done-Settled :
      (c : Call api)
      → Boot c
      → c.pending_signaling_messages ≡ []
      → (initiates c.join_response ≡ true → c.offer_started ≡ true)
      → Settled c
  all_done-Settled c v e o = (v, ground arith)

  start_offer-Settled :
      (initiator : Bool) (c : Call api)
      → initiates c.join_response ≡ initiator
      → c.pending_signaling_messages ≡ []
      → Boot c
      → Keeps Settled (start_offer initiator c)
  unfolding start_offer
  start_offer-Settled false c i e v = all_done-Settled c v e (λ t. ground arith)
  start_offer-Settled true c i e v =
      if_cases (Keeps Settled) c.offer_started (λ o. all_done-Settled c v e (λ _. o))
        (λ _. >>=-Keeps Settled (api.create_offer c.peer) _ (λ p. offer_begun-Settled c p v))

  pump_loop-Settled :
      (initiator : Bool) (ms : List SignalingMessage) (c : Call api)
      → initiates c.join_response ≡ initiator
      → c.pending_signaling_messages ≡ ms
      → Boot c
      → Keeps Settled (pump_loop initiator ms c)
  unfolding pump_loop
  pump_loop-Settled initiator [] c i e v =
      if_cases (Keeps Settled) (can_pump c) (λ _. start_offer-Settled initiator c i e v)
        (λ h. stopped-Settled c v h)
  pump_loop-Settled initiator (m ∷ ms) c i e v =
      let c' = record c { pending_signaling_messages = ms } in
      if_cases (Keeps Settled) (can_pump c)
        (λ _.
          handle_message-Settled m.kind m (pump_loop initiator ms) c'
            (λ p. pump_loop-Settled initiator ms (record c' { peer = p }) i refl v) v)
        (λ h. stopped-Settled c v h)

  unjoined-Settled : (c : Call api) → c.join_response ≡ none → Boot c → Settled c
  unjoined-Settled c j v = (v, ground arith)

  -- `PumpSignalingMessages`, whatever waited before.
  pub pump-Settled : (c : Call api) → Boot c → Keeps Settled (pump_signaling_messages c)
  unfolding pump_signaling_messages
  pump-Settled c v = go c.join_response refl
    where
      go : (j : Option JoinResponse) → c.join_response ≡ j → Keeps Settled (pump j c)
      go none e = unjoined-Settled c e v
      go (some jr) e =
          pump_loop-Settled jr.is_initiator c.pending_signaling_messages c (ap initiates e) refl v
