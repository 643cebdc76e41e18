-- ===== src/Call/Safety/Pump.antt =====
-- Crashes and the loop over the messages.
use vcpkg_webrtc_sample.Prelude.{
  suc, ◌+◌, ◌≡◌, inl, inr, Bool, true, false, Option, none, some, List, [], ◌∷◌, Crashes, Error,
  Result, ok, err, Status, Returns, Returns-eq, if_cases, arith, has_value, ◌⊎◌, ◌>>=◌,
}
use vcpkg_webrtc_sample.Common.Message.{
  SignalingMessage, SignalingMessageType, offer, answer, candidate, bye, unknown,
}
use vcpkg_webrtc_sample.Common.Join.{JoinResponse}
use vcpkg_webrtc_sample.Peer.Api.{PeerApi, PeerLaws}
use vcpkg_webrtc_sample.Call.Types.{peer_connection_error, signaling_error}
use vcpkg_webrtc_sample.Call.State.{Call}
use vcpkg_webrtc_sample.Call.Pump.{
  can_pump, begin_action, action_failed, on_bye, action_begun, candidate_added, handle_message,
  start_offer, pump_loop, pump, pump_signaling_messages,
}
use vcpkg_webrtc_sample.Call.Safety.{Safe, finish-Safe}

module _ {api : PeerApi} (laws : PeerLaws api) where
  -- What a turn of the loop starts from.
  pub record Turn (c : Call api) : Type 0 where
    pub idle : laws.busy c.peer + c.description_callbacks ≡ 0
    pub open_peer : laws.is_open c.peer ≡ true
    pub joined : has_value c.join_response ≡ true
    pub ready : c.negotiation_ready ≡ true
    pub unfinished : c.finished ≡ false
    pub running : c.quit ≡ false

  can_pump-Turn : (c : Call api) → can_pump c ≡ true → Safe laws 0 c → Turn c
  can_pump-Turn c h v = ground arith

  Turn-Safe : (c : Call api) → c.signaling_action_in_flight ≡ false → Turn c → Safe laws 0 c
  Turn-Safe c i t = ground arith

  action_failed-Safe : (e : Error) (c : Call api) → Turn c → Safe laws 0 (action_failed e c)
  action_failed-Safe e c t =
      finish-Safe laws 0 peer_connection_error _ (record c { signaling_action_in_flight = false })
        (ground arith)

  -- The action is under way, or has failed at once.
  abbrev Begun : api.State → Result api.State → Type 0
  Begun p (ok q) = (laws.busy q ≡ suc (laws.busy p)) × (laws.is_open q ≡ true)
  Begun p (err e) = Unit

  action_begun-Safe :
      (c : Call api) (r : Result api.State)
      → Turn c
      → Begun c.peer r
      → Safe laws 0 (action_begun (begin_action c) r)
  unfolding action_begun
  action_begun-Safe c (ok p) t b = ground arith
  action_begun-Safe c (err e) t b = action_failed-Safe e (begin_action c) (ground arith)

  -- What the laws say of one of the two actions on a remote description.
  abbrev Answers : api.State → Crashes (Result api.State) → Type 0
  Answers p m =
      ((e : Error) × (m ≡ some (err e)))
      ⊎ ((q : api.State) × (m ≡ some (ok q))
          × (laws.busy q ≡ suc (laws.busy p))
          × (laws.is_open q ≡ true))

  action-Safe :
      (c : Call api) (m : Crashes (Result api.State))
      → Turn c
      → Answers c.peer m
      → Returns (Safe laws 0) (m >>= λ r. some (action_begun (begin_action c) r))
  action-Safe c m t (inl (e, h)) = Returns-eq (Safe laws 0) _ h (action_begun-Safe c (err e) t tt)
  action-Safe c m t (inr (q, h, b, o)) =
      Returns-eq (Safe laws 0) _ h (action_begun-Safe c (ok q) t (b, o))

  candidate_added-Safe :
      (continue : Call api → Crashes (Call api)) (c : Call api) (s : Status) (p : api.State)
      → Turn c
      → c.signaling_action_in_flight ≡ false
      → laws.busy p ≡ laws.busy c.peer
      → laws.is_open p ≡ true
      → ((d : Call api) → Safe laws 0 d → Returns (Safe laws 0) (continue d))
      → Returns (Safe laws 0) (candidate_added continue c (s, p))
  unfolding candidate_added
  candidate_added-Safe continue c (ok _) p t i b o k = k (record c { peer = p }) (ground arith)
  candidate_added-Safe continue c (err e) p t i b o k =
      finish-Safe laws 0 peer_connection_error _ (record c { peer = p }) (ground arith)

  on_bye-Safe : (c : Call api) → Safe laws 0 c → Safe laws 0 (on_bye c)
  unfolding on_bye
  on_bye-Safe c v =
      if_cases (Safe laws 0) c.call_established (λ _. finish-Safe laws 0 _ _ c v)
        (λ _. finish-Safe laws 0 _ _ c v)

  handle_message-Safe :
      (kind : SignalingMessageType) (m : SignalingMessage)
      (continue : Call api → Crashes (Call api)) (c : Call api)
      → Turn c
      → c.signaling_action_in_flight ≡ false
      → ((d : Call api) → Safe laws 0 d → Returns (Safe laws 0) (continue d))
      → Returns (Safe laws 0) (handle_message kind m continue c)
  unfolding handle_message
  handle_message-Safe bye m continue c t i k = on_bye-Safe c (Turn-Safe c i t)
  handle_message-Safe candidate m continue c t i k =
      let (s, p, h, b, o) = laws.add_remote_candidate_lem m c.peer t.open_peer in
      Returns-eq (Safe laws 0) (candidate_added continue c) h
        (candidate_added-Safe continue c s p t i b o k)
  handle_message-Safe answer m continue c t i k =
      action-Safe c _ t (laws.set_remote_answer_lem m c.peer t.open_peer)
  handle_message-Safe offer m continue c t i k =
      action-Safe c _ t (laws.set_remote_offer_lem m c.peer t.open_peer)
  handle_message-Safe unknown m continue c t i k =
      finish-Safe laws 0 signaling_error _ c (Turn-Safe c i t)

  start_offer-Safe :
      (initiator : Bool) (c : Call api)
      → Turn c
      → Safe laws 0 c
      → Returns (Safe laws 0) (start_offer initiator c)
  unfolding start_offer
  start_offer-Safe false c t v = v
  start_offer-Safe true c t v =
      if_cases (Returns (Safe laws 0)) c.offer_started (λ _. v)
        λ _.
          let (p, h, b, o) = laws.create_offer_lem c.peer t.open_peer in
          Returns-eq (Safe laws 0) _ h (begun p b o)
    where
      begun :
          (p : api.State)
          → laws.busy p ≡ suc (laws.busy c.peer)
          → laws.is_open p ≡ true
          → Safe laws 0 (record (begin_action c) { offer_started = true; peer = p })
      begun p b o = ground arith

  can_pump-idle : (c : Call api) → can_pump c ≡ true → c.signaling_action_in_flight ≡ false
  can_pump-idle c h = ground arith

  pub pump_loop-Safe :
      (initiator : Bool) (ms : List SignalingMessage) (c : Call api)
      → Safe laws 0 c
      → Returns (Safe laws 0) (pump_loop initiator ms c)
  unfolding pump_loop
  pump_loop-Safe initiator [] c v =
      if_cases (Returns (Safe laws 0)) (can_pump c)
        (λ h. start_offer-Safe initiator c (can_pump-Turn c h v) v) (λ _. v)
  pump_loop-Safe initiator (m ∷ ms) c v =
      let c' = record c { pending_signaling_messages = ms } in
      if_cases (Returns (Safe laws 0)) (can_pump c)
        (λ h.
          handle_message-Safe m.kind m (pump_loop initiator ms) c' (can_pump-Turn c' h v)
            (can_pump-idle c h) (pump_loop-Safe initiator ms))
        (λ _. v)

  pub pump-Safe : (c : Call api) → Safe laws 0 c → Returns (Safe laws 0) (pump_signaling_messages c)
  unfolding pump_signaling_messages
  pump-Safe c v = go c.join_response
    where
      go : (j : Option JoinResponse) → Returns (Safe laws 0) (pump j c)
      go none = v
      go (some jr) = pump_loop-Safe jr.is_initiator c.pending_signaling_messages c v
