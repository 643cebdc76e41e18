-- ===== src/Call/Kept/Pump.antt =====
-- Invariants and the loop over the messages.
use vcpkg_webrtc_sample.Prelude.{
  ◌≡◌, Bool, true, false, Option, none, some, Result, err, ok, Status, arith, Crashes, Keeps, List,
  [], ◌∷◌, Error, if_cases, >>=-Keeps,
}
use vcpkg_webrtc_sample.Peer.Api.{PeerApi}
use vcpkg_webrtc_sample.Call.Types.{
  remote_bye_after_established, remote_bye_before_established, signaling_error,
  peer_connection_error, negotiating,
}
use vcpkg_webrtc_sample.Common.Message.{
  SignalingMessage, SignalingMessageType, offer, answer, candidate, bye, unknown,
}
use vcpkg_webrtc_sample.Call.Pump.{
  on_bye, candidate_added, action_begun, begin_action, handle_message, start_offer, pump_loop, pump,
  can_pump, action_failed, pump_signaling_messages,
}
use vcpkg_webrtc_sample.Common.Join.{JoinResponse}
use vcpkg_webrtc_sample.Call.State.{Call}
use vcpkg_webrtc_sample.Call.Kept.{Core, core, Kept}

module _ {api : PeerApi} (P : Core → Type 0) (kept : Kept api P) where
  abbrev Good : Call api → Type 0
  Good c = P (core c)

  on_bye-Kept : (c : Call api) → Good c → Good (on_bye c)
  unfolding on_bye
  on_bye-Kept c v =
      if_cases Good c.call_established
        (λ e. kept.finish_kept remote_bye_after_established _ c (λ _. e) v)
        (λ _. kept.finish_kept remote_bye_before_established _ c (λ e. cc) v)

  pub action_failed-Kept : (e : Error) (c : Call api) → Good c → Good (action_failed e c)
  action_failed-Kept e c v = kept.finish_kept peer_connection_error _ _ (λ h. cc) v

  action_begun-Kept :
      (c : Call api)
      → c.finished ≡ false
      → Good c
      → (r : Result api.State) → Good (action_begun (begin_action c) r)
  unfolding action_begun
  action_begun-Kept c f v (ok p) = kept.restate_kept negotiating c f v
  action_begun-Kept c f v (err e) =
      action_failed-Kept e (begin_action c) (kept.restate_kept negotiating c f v)

  candidate_added-Kept :
      (continue : Call api → Crashes (Call api)) (c : Call api)
      → ((p : api.State) → Keeps Good (continue (record c { peer = p })))
      → Good c
      → (r : Status × api.State) → Keeps Good (candidate_added continue c r)
  unfolding candidate_added
  candidate_added-Kept continue c h v (ok _, p) = h p
  candidate_added-Kept continue c h v (err e, p) =
      kept.finish_kept peer_connection_error _ (record c { peer = p }) (λ h. cc) v

  handle_message-Kept :
      (k : SignalingMessageType) (m : SignalingMessage) (continue : Call api → Crashes (Call api))
      (c : Call api)
      → c.finished ≡ false
      → ((p : api.State) → Keeps Good (continue (record c { peer = p })))
      → Good c
      → Keeps Good (handle_message k m continue c)
  unfolding handle_message
  handle_message-Kept bye m continue c f h v = on_bye-Kept c v
  handle_message-Kept candidate m continue c f h v =
      >>=-Keeps Good (api.add_remote_candidate m c.peer) (candidate_added continue c)
        (candidate_added-Kept continue c h v)
  handle_message-Kept answer m continue c f h v =
      >>=-Keeps Good (api.set_remote_answer m c.peer) _ (action_begun-Kept c f v)
  handle_message-Kept offer m continue c f h v =
      >>=-Keeps Good (api.set_remote_offer_and_create_answer m c.peer) _ (action_begun-Kept c f v)
  handle_message-Kept unknown m continue c f h v = kept.finish_kept signaling_error _ c (λ e. cc) v

  start_offer-Kept :
      (initiator : Bool) (c : Call api)
      → c.finished ≡ false
      → Good c
      → Keeps Good (start_offer initiator c)
  unfolding start_offer
  start_offer-Kept false c f v = v
  start_offer-Kept true c f v =
      if_cases (Keeps Good) c.offer_started (λ _. v)
        (λ _. >>=-Keeps Good (api.create_offer c.peer) _ (λ p. kept.restate_kept negotiating c f v))

  can_pump-finished : (c : Call api) → can_pump c ≡ true → c.finished ≡ false
  can_pump-finished c h = ground arith

  pub pump_loop-Kept :
      (initiator : Bool) (ms : List SignalingMessage) (c : Call api)
      → Good c
      → Keeps Good (pump_loop initiator ms c)
  unfolding pump_loop
  pump_loop-Kept initiator [] c v =
      if_cases (Keeps Good) (can_pump c)
        (λ h. start_offer-Kept initiator c (can_pump-finished c h) v) (λ _. v)
  pump_loop-Kept initiator (m ∷ ms) c v =
      let c' = record c { pending_signaling_messages = ms } in
      if_cases (Keeps Good) (can_pump c)
        (λ h.
          handle_message-Kept m.kind m (pump_loop initiator ms) c' (can_pump-finished c h)
            (λ p. pump_loop-Kept initiator ms (record c' { peer = p }) v) v)
        (λ _. v)

  pub pump-Kept : (c : Call api) → Good c → Keeps Good (pump_signaling_messages c)
  unfolding pump_signaling_messages
  pump-Kept c v = go c.join_response
    where
      go : (j : Option JoinResponse) → Keeps Good (pump j c)
      go none = v
      go (some jr) = pump_loop-Kept jr.is_initiator c.pending_signaling_messages c v
