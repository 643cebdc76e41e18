-- ===== src/Call/Heard/Pump.antt =====
-- The loop of `PumpSignalingMessages`, and the way a call ends.
use mathlib.Core.List.{append_assoc}
use mathlib.Core.List.Sublist
use vcpkg_webrtc_sample.Prelude.{
  ℕ, ◌≡◌, refl, sym, ◌∙◌, subst, Bool, true, false, Option, none, some, List, [], ◌∷◌, ◌++◌,
  Sublist, Crashes, Error, Result, ok, err, Status, if_cases, Keeps, ◌>>=◌,
}
use vcpkg_webrtc_sample.Common.Message.{
  SignalingMessage, SignalingMessageType, offer, answer, candidate, bye, unknown,
}
use vcpkg_webrtc_sample.Common.Join.{JoinResponse}
use vcpkg_webrtc_sample.Peer.Api.{PeerApi}
use vcpkg_webrtc_sample.Call.Types.{
  TerminalReason, local_duration_reached, signaling_error, peer_connection_error,
  remote_bye_after_established, remote_bye_before_established,
}
use vcpkg_webrtc_sample.Call.State.{Call}
use vcpkg_webrtc_sample.Call.Finish.{finish, end_call, complete_finish, send_bye_and_finish}
use vcpkg_webrtc_sample.Call.Pump.{
  can_pump, begin_action, action_failed, on_bye, action_begun, candidate_added, handle_message,
  start_offer, pump_loop, pump, pump_signaling_messages,
}
use vcpkg_webrtc_sample.Call.Heard.{listening, with_heard, without_one, told, Heard}

module _ (api : PeerApi) (n : ℕ) (arrived : List SignalingMessage) where
  -- As long as there is no claim that all was heard.
  pub record Partly (c : Call (listening api)) : Type 0 where
    pub joins_left : c.join_callbacks ≡ n
    pub is_part : Sublist (told api c) arrived

  pub Heard-Partly : (c : Call (listening api)) → Heard api n arrived c → Partly c
  Heard-Partly c h = record { joins_left = h.joins_left; is_part = h.is_part }

  pub finished-Heard :
      (c : Call (listening api)) → c.finished ≡ true → Partly c → Heard api n arrived c
  finished-Heard c f h = record { joins_left = h.joins_left; is_part = h.is_part; is_all = λ g. cc }

  ended-Heard :
      (r : TerminalReason) (s : Status) (j : Option JoinResponse) (c : Call (listening api))
      → c.finished ≡ true
      → Partly c
      → Heard api n arrived (end_call r s j c)
  unfolding end_call complete_finish send_bye_and_finish
  ended-Heard local_duration_reached s none c f h = record {
    joins_left = h.joins_left;
    is_part = h.is_part;
    is_all = λ g. cc;
  }
  ended-Heard local_duration_reached s (some jr) c f h = record {
    joins_left = h.joins_left;
    is_part = h.is_part;
    is_all = λ g. cc;
  }
  ended-Heard r s j c f h = record {
    joins_left = h.joins_left;
    is_part = h.is_part;
    is_all = λ g. cc;
  }

  pub finish-Heard :
      (r : TerminalReason) (s : Status) (c : Call (listening api))
      → Partly c
      → Heard api n arrived (finish r s c)
  unfolding finish
  finish-Heard r s c h =
      if_cases (Heard api n arrived) c.finished (λ f. finished-Heard c f h)
        (λ _.
          ended-Heard r s c.join_response _ refl
            (record { joins_left = h.joins_left; is_part = h.is_part }))

  pub action_failed-Heard :
      (e : Error) (c : Call (listening api)) → Partly c → Heard api n arrived (action_failed e c)
  action_failed-Heard e c h =
      finish-Heard peer_connection_error _ _
        (record { joins_left = h.joins_left; is_part = h.is_part })

  on_bye-Heard : (c : Call (listening api)) → Partly c → Heard api n arrived (on_bye c)
  unfolding on_bye
  on_bye-Heard c h =
      if_cases (Heard api n arrived) c.call_established
        (λ _. finish-Heard remote_bye_after_established _ c h)
        (λ _. finish-Heard remote_bye_before_established _ c h)

  -- The state in front of a message that has left the queue.
  record Holds (m : SignalingMessage) (c : Call (listening api)) : Type 0 where
    joins_left : c.join_callbacks ≡ n
    is_part : Sublist (c.peer.1 ++ m ∷ c.pending_signaling_messages) arrived
    is_all :
        c.finished ≡ false → c.quit ≡ false → c.peer.1 ++ m ∷ c.pending_signaling_messages ≡ arrived

  -- Without the message.
  dropped : (m : SignalingMessage) (c : Call (listening api)) → Holds m c → Partly c
  dropped m c h = record {
    joins_left = h.joins_left;
    is_part = Sublist.trans (without_one c.peer.1 m c.pending_signaling_messages) h.is_part;
  }

  -- With the message handed on.
  given :
      (m : SignalingMessage) (p : api.State) (c : Call (listening api))
      → Holds m c
      → Heard api n arrived (record c { peer = (p, c.peer.1 ++ m ∷ []) })
  given m p c h =
      let e = append_assoc c.peer.1 (m ∷ []) c.pending_signaling_messages in
      record {
        joins_left = h.joins_left;
        is_part = subst (λ l. Sublist l arrived) (sym e) h.is_part;
        is_all = λ f q. e ∙ h.is_all f q;
      }

  action_begun-Heard :
      (m : SignalingMessage) (c : Call (listening api))
      → Holds m c
      → (r : Result api.State)
      → Heard api n arrived (action_begun (begin_action c) (with_heard m c.peer.1 r))
  unfolding action_begun
  action_begun-Heard m c h (ok p) =
      let g = given m p c h in
      record { joins_left = g.joins_left; is_part = g.is_part; is_all = g.is_all }
  action_begun-Heard m c h (err e) =
      let d = dropped m c h in
      action_failed-Heard e (begin_action c)
        (record { joins_left = d.joins_left; is_part = d.is_part })

  candidate_added-Heard :
      (continue : Call (listening api) → Crashes (Call (listening api))) (m : SignalingMessage)
      (c : Call (listening api))
      → ((p : api.State)
          → Keeps (Heard api n arrived) (continue (record c { peer = (p, c.peer.1 ++ m ∷ []) })))
      → Holds m c
      → (r : Status × api.State)
      → Keeps (Heard api n arrived) (candidate_added continue c (r.0, (r.1, c.peer.1 ++ m ∷ [])))
  unfolding candidate_added
  candidate_added-Heard continue m c k h (ok _, p) = k p
  candidate_added-Heard continue m c k h (err e, p) =
      finish-Heard peer_connection_error _ _ (Heard-Partly _ (given m p c h))

  -- A call of the wrapped client.
  >>=-Heard :
      {A B : Type 0} (m : Crashes A) (f : A → B) (g : B → Crashes (Call (listening api)))
      → ((a : A) → Keeps (Heard api n arrived) (g (f a)))
      → Keeps (Heard api n arrived) ((m >>= λ a. some (f a)) >>= g)
  >>=-Heard none f g h = tt
  >>=-Heard (some a) f g h = h a

  handle_message-Heard :
      (k : SignalingMessageType) (m : SignalingMessage)
      (continue : Call (listening api) → Crashes (Call (listening api))) (c : Call (listening api))
      → ((p : api.State)
          → Keeps (Heard api n arrived) (continue (record c { peer = (p, c.peer.1 ++ m ∷ []) })))
      → Holds m c
      → Keeps (Heard api n arrived) (handle_message k m continue c)
  unfolding handle_message
  handle_message-Heard bye m continue c k h = on_bye-Heard c (dropped m c h)
  handle_message-Heard candidate m continue c k h =
      >>=-Heard (api.add_remote_candidate m c.peer.0) _ _ (candidate_added-Heard continue m c k h)
  handle_message-Heard answer m continue c k h =
      >>=-Heard (api.set_remote_answer m c.peer.0) _ _ (action_begun-Heard m c h)
  handle_message-Heard offer m continue c k h =
      >>=-Heard (api.set_remote_offer_and_create_answer m c.peer.0) _ _ (action_begun-Heard m c h)
  handle_message-Heard unknown m continue c k h = finish-Heard signaling_error _ c (dropped m c h)

  start_offer-Heard :
      (initiator : Bool) (c : Call (listening api))
      → Heard api n arrived c
      → Keeps (Heard api n arrived) (start_offer initiator c)
  unfolding start_offer
  start_offer-Heard false c h = h
  start_offer-Heard true c h =
      if_cases (Keeps (Heard api n arrived)) c.offer_started (λ _. h)
        (λ _.
          >>=-Heard (api.create_offer c.peer.0) _ _
            (λ p. record { joins_left = h.joins_left; is_part = h.is_part; is_all = h.is_all }))

  pump_loop-Heard :
      (initiator : Bool) (ms : List SignalingMessage) (c : Call (listening api))
      → c.pending_signaling_messages ≡ ms
      → Heard api n arrived c
      → Keeps (Heard api n arrived) (pump_loop initiator ms c)
  unfolding pump_loop
  pump_loop-Heard initiator [] c e h =
      if_cases (Keeps (Heard api n arrived)) (can_pump c) (λ _. start_offer-Heard initiator c h)
        (λ _. h)
  pump_loop-Heard initiator (m ∷ ms) c e h =
      let held : Holds m (record c { pending_signaling_messages = ms }) = record {
        joins_left = h.joins_left;
        is_part = subst (λ l. Sublist (c.peer.1 ++ l) arrived) e h.is_part;
        is_all = λ f q. subst (λ l. c.peer.1 ++ l ≡ arrived) e (h.is_all f q);
      } in
      if_cases (Keeps (Heard api n arrived)) (can_pump c)
        (λ _.
          handle_message-Heard m.kind m (pump_loop initiator ms)
            (record c { pending_signaling_messages = ms })
            (λ p. pump_loop-Heard initiator ms _ refl (given m p _ held)) held)
        (λ _. h)

  pub pump-Heard :
      (c : Call (listening api))
      → Heard api n arrived c
      → Keeps (Heard api n arrived) (pump_signaling_messages c)
  unfolding pump_signaling_messages pump
  pump-Heard c h = go c.join_response
    where
      go : (j : Option JoinResponse) → Keeps (Heard api n arrived) (pump j c)
      go none = h
      go (some jr) = pump_loop-Heard jr.is_initiator c.pending_signaling_messages c refl h
